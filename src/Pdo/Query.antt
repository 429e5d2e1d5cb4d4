-- ===== src/Pdo/Query.antt =====
-- The queries of cypdo.c, and the buffers that they return.
use netmodem2irc.Base.{
  ℕ, Bool, false, not, ◌||◌, Option, some, none, List, [], ◌∷◌, ltb, ◌==◌, if◌then◌else◌,
}
use netmodem2irc.Port.{Port, Status, DevicePower}

-- `BUS_QUERY_ID_TYPE`
pub data IdType : Type 0 where
  device_id instance_id hardware_ids compatible_ids other_id : IdType

-- `DEVICE_CAPABILITIES`, as far as it is filled in. `device_state` lists the states for
-- PowerSystemWorking, the three sleeping states, PowerSystemHibernate and PowerSystemShutdown.
pub record Capabilities : Type 0 where
  pub device_wake : DevicePower
  pub latencies : List ℕ
  pub unique_id : Bool
  pub eject_supported : Bool
  pub removable : Bool
  pub surprise_removal_ok : Bool
  pub device_state : List DevicePower

-- What a query returns: CY_CHILD_HARDWARE_ID as a string, a number printed by `%lu`,
-- CY_CHILD_HARDWARE_ID as a list of one string, a list of no string, the description with a port's
-- number, the capabilities, or the relation that holds the port's own object.
pub data Reply : Type 0 where
  hardware_id hardware_id_list empty_list own_object : Reply
  number description : ℕ → Reply
  capabilities : Capabilities → Reply

abbrev if_buffer : Bool → Reply → Status × Option Reply
if_buffer buffer r =
    if buffer then (Status.success, some r) else (Status.insufficient_resources, none)

-- `CyPdoQueryId`: whether the buffer was allocated, the IRP's status
unfoldable pub query_id : Bool → Status → IdType → Port → Status × Option Reply
query_id buffer status IdType.device_id p = if_buffer buffer Reply.hardware_id
query_id buffer status IdType.instance_id p = if_buffer buffer (Reply.number p.port_index)
query_id buffer status IdType.hardware_ids p = if_buffer buffer Reply.hardware_id_list
query_id buffer status IdType.compatible_ids p = if_buffer buffer Reply.empty_list
query_id buffer status IdType.other_id p = (status, none)

abbrev port_capabilities : Capabilities
port_capabilities = record {
  device_wake = DevicePower.unspecified;
  latencies = 0 ∷ 0 ∷ 0 ∷ [];
  unique_id = false;
  eject_supported = false;
  removable = false;
  surprise_removal_ok = false;
  device_state =
      DevicePower.d0 ∷ DevicePower.d3 ∷ DevicePower.d3 ∷ DevicePower.d3 ∷ DevicePower.d3
      ∷ DevicePower.d3 ∷ [];
}

-- `CyPdoQueryCapabilities`: sizeof(DEVICE_CAPABILITIES), and the Version and Size that are asked for
unfoldable pub query_capabilities : ℕ → ℕ → ℕ → Status × Option Reply
query_capabilities size version caps_size =
    if not (version == 1) || ltb caps_size size
    then (Status.unsuccessful, none)
    else (Status.success, some (Reply.capabilities port_capabilities))

-- `CyPdoQueryDeviceText` for DeviceTextDescription
unfoldable pub query_device_text : Bool → Port → Status × Option Reply
query_device_text buffer p = if_buffer buffer (Reply.description p.port_index)
