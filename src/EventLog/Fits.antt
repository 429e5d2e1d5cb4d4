-- ===== src/EventLog/Fits.antt =====
-- A log entry holds the data that is copied into it.
use netmodem2irc.Base.{
  ℕ, ◌+◌, ◌*◌, ◌≤◌, ◌<◌, ◌≡◌, Bool, true, false, Option, some, List, length, length-take, take-all,
  sym, ap, ◌∙◌, arith,
}
use mathlib.Core.Path.{subst}
use netmodem2irc.EventLog.{
  Ddk, Event, Entry, Occasion, full_size, cap, copied, entry_of, log_event, event_of,
}

-- The data lies in the entry, from the end of the fixed part on, and its size is told.
pub record Fits (ddk : Ddk) (e : Entry) : Type 0 where
  pub inside : ddk.packet_size + length e.dump * 4 ≤ e.size
  pub told : e.dump_data_size ≡ length e.dump * 4
  pub allowed : e.size ≤ ddk.maximum_size

length-copied :
    (n : ℕ) (dump_data : Option (List ℕ)) (words : List ℕ)
    → dump_data ≡ some words
    → n ≤ length words
    → length (copied n dump_data) ≡ n
unfolding copied
length-copied n dump_data words e h = rw e (omega (arith, length-take n words))

module _ (ddk : Ddk) (h : ddk.packet_size ≤ ddk.maximum_size) (small : ddk.maximum_size < 256) where
  cap-room :
      (count : ℕ)
      → ddk.packet_size + count * 4 < 256
      → (ddk.packet_size + (cap ddk count).1 * 4 ≤ (cap ddk count).0)
        × (((cap ddk count).0 ≤ ddk.maximum_size) × ((cap ddk count).1 ≤ count))
  unfolding cap full_size
  cap-room count few = ground arith

  entry_of-Fits :
      (ev : Event) (words : List ℕ)
      → ev.dump_data ≡ some words
      → ev.dump_count ≤ length words
      → ddk.packet_size + ev.dump_count * 4 < 256
      → Fits ddk (entry_of ddk ev)
  unfolding entry_of
  entry_of-Fits ev words has enough few =
      let room = cap-room ev.dump_count few in
      let n : ℕ = (cap ddk ev.dump_count).1 in
      let all : length (copied n ev.dump_data) ≡ n =
        length-copied n ev.dump_data words has (omega (arith, room.1.1)) in
      record {
        inside = omega (arith, all, room.0);
        told = omega (arith, all, room.0, room.1.0);
        allowed = room.1.0;
      }

  -- An event with data of at least DumpCount words, few enough that the size of the entry fits a
  -- UCHAR before it is capped: the entry that is written is no larger than the maximum, the data that
  -- is copied lies inside it, and its size is told.
  pub log_event-Fits :
      (allocated : Bool) (ev : Event) (words : List ℕ) (e : Entry)
      → ev.dump_data ≡ some words
      → ev.dump_count ≤ length words
      → ddk.packet_size + ev.dump_count * 4 < 256
      → log_event ddk allocated ev ≡ some e
      → Fits ddk e
  unfolding log_event
  log_event-Fits true ev words e has enough few written =
      subst (λ (x : Entry). Fits ddk x) (ground (arith, written))
        (entry_of-Fits ev words has enough few)
  log_event-Fits false ev words e has enough few written = cc

  entry_of-dump :
      (ev : Event) (words : List ℕ)
      → ev.dump_data ≡ some words
      → ev.dump_count ≡ length words
      → ddk.packet_size + ev.dump_count * 4 ≤ ddk.maximum_size
      → (entry_of ddk ev).dump ≡ words
  unfolding entry_of cap full_size copied
  entry_of-dump ev words has all few =
      let whole : (cap ddk ev.dump_count).1 ≡ ev.dump_count = ground (arith, few) in
      rw (has, whole, all) (take-all (length words) words (omega arith))

  event_of-count :
      (o : Occasion) (words : List ℕ)
      → (event_of ddk o).dump_data ≡ some words
      → ((event_of ddk o).dump_count ≡ length words) × ((event_of ddk o).dump_count ≤ 4)
  unfolding event_of
  event_of-count (Occasion.driver_loaded a b) words has = ground (arith, has)
  event_of-count (Occasion.port_opened a b c) words has = ground (arith, has)
  event_of-count (Occasion.port_closed a b c d) words has = ground (arith, has)
  event_of-count (Occasion.buffer_overrun a b) words has = ground (arith, has)
  event_of-count (Occasion.fifo_overrun a) words has = ground (arith, has)
  event_of-count (Occasion.parity_errors a b) words has = ground (arith, has)
  event_of-count (Occasion.framing_errors a b) words has = ground (arith, has)
  event_of-count (Occasion.no_chips_found a) words has = ground (arith, has)
  event_of-count (Occasion.memory_map_failed a b) words has = ground (arith, has)
  event_of-count (Occasion.interrupt_connect_failed a) words has = ground (arith, has)
  event_of-count (Occasion.power_suspend a) words has = ground (arith, has)
  event_of-count (Occasion.power_resume a) words has = ground (arith, has)
  event_of-count Occasion.driver_unloaded words has = cc

  -- Every event of the driver with data, where the entry's fixed part leaves room for four words: the
  -- entry that is written holds all of its data.
  pub event_of-Fits :
      (o : Occasion) (words : List ℕ) (e : Entry)
      → ddk.packet_size + 16 ≤ ddk.maximum_size
      → (event_of ddk o).dump_data ≡ some words
      → log_event ddk true (event_of ddk o) ≡ some e
      → Fits ddk e × (e.dump ≡ words)
  unfolding log_event
  event_of-Fits o words e room has written =
      let few = event_of-count o words has in
      let fits =
        log_event-Fits true (event_of ddk o) words e has (omega (arith, few.0))
          (omega (arith, few.0, few.1)) written in
      let same : entry_of ddk (event_of ddk o) ≡ e = ground (arith, written) in
      (
        fits,
        sym (ap (λ (x : Entry). x.dump) same)
            ∙ entry_of-dump (event_of ddk o) words has few.0 (omega (arith, few.1)),
      )
