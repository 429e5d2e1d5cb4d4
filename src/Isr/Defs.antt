-- ===== src/Isr/Defs.antt =====
-- What the interrupt service routine looks up in CY_FDO_EXT, and its local variables.
use netmodem2irc.Base.{
  ℕ, ◌+◌, ◌-◌, ◌*◌, ◌/◌, ◌%◌, ◌^◌, Bool, true, Option, some, none, List, [], ◌∷◌, ◌++◌, leb,
  if◌then◌else◌, get_or, set, has_bits,
}
use netmodem2irc.Cd1400
use netmodem2irc.Port.{Port, is_started}
use netmodem2irc.Card.{Card}

-- `(ULONG)((ULONG_PTR)(chipBase - CardBase) / CY_REG_SIZE) * CY_PORTS_PER_CHIP + channel`, with
-- 64-bit pointers
unfoldable pub port_index : Card → ℕ → ℕ → ℕ
port_index card base channel =
    ((base + 2 ^ 64 - card.card_base) % 2 ^ 64 / Cd1400.reg_size % 2 ^ 32 * Cd1400.ports_per_chip
      + channel)
    % 2 ^ 32

-- `portArray[portIndex]`, if the index is below NumPDOs, the child is there and it is started
unfoldable pub started_port : Card → ℕ → Option Port
started_port card index =
    if leb card.num_pdos index then none else elim (get_or card.child_pdos index none) [
      | none ↦ none
      | some p ↦ if is_started p.pnp_state then some p else none
    ]

-- The ISR works on the extension itself.
unfoldable pub put_port : Card → ℕ → Port → Card
put_port card index p = record card { child_pdos = set card.child_pdos index (some p) }

-- The local variables of `CyInterruptService` that change, with the card.
pub record Scan : Type 0 where
  pub card : Card
  pub rx_flags : ℕ
  pub tx_flags : ℕ
  pub mdm_flags : ℕ
  pub any_activity : Bool
  pub serviced : Bool

-- `anyActivity = TRUE; serviced = TRUE;`
abbrev pub active : Scan → Scan
active s = record s { any_activity = true; serviced = true }

-- A DPC of a port, as it is handed to KeInsertQueueDpc.
pub data Dpc : Type 0 where
  read_dpc write_dpc modem_dpc : ℕ → Dpc

abbrev when : Bool → Dpc → List Dpc
when b d = if b then d ∷ [] else []

-- The loop that queues the DPCs, from port `i` on.
unfoldable pub queue_dpcs : ℕ → List (Option Port) → Scan → List Dpc
queue_dpcs i [] s = []
queue_dpcs i (none ∷ ports) s = queue_dpcs (i + 1) ports s
queue_dpcs i (some p ∷ ports) s =
    when (has_bits s.rx_flags (2 ^ i % 2 ^ 32)) (Dpc.read_dpc i)
    ++ (when (has_bits s.tx_flags (2 ^ i % 2 ^ 32)) (Dpc.write_dpc i)
        ++ (when (has_bits s.mdm_flags (2 ^ i % 2 ^ 32)) (Dpc.modem_dpc i)
            ++ queue_dpcs (i + 1) ports s))
