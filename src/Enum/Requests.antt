-- ===== src/Enum/Requests.antt =====
-- Every PnP request to a card is either completed by it or passed to the lower device, once, and the
-- remove lock is given back.
use netmodem2irc.Base.{
  ◌+◌, ◌≡◌, ◌∙◌, refl, ap, ℕ, Option, List, [], ◌∷◌, length, replicate, Bool, true, false, not,
  ◌&&◌, if◌then◌else◌, ◌++◌, Bool-cases, inl, inr, arith,
}
use netmodem2irc.Bus.{Device, Log}
use netmodem2irc.Port.{Irp, Status, nt_success}
use netmodem2irc.Port.Settles.{ids, statuses}
use netmodem2irc.Card.{Card}
use netmodem2irc.Enum.{
  CardOutcome, Kernel, Minor, complete_card, forward_card, fdo_remove, query_bus_relations, fdo_pnp,
  fdo_start, dispatch_pnp, set_card_state, restore_card_state,
}
use netmodem2irc.Enum.Start.{fdo_start-lock_count}

-- Whether a request goes to the lower driver and comes back before the card handles it: the
-- START_DEVICE of a card that is not started.
abbrev pub comes_back : Minor → Card → Bool
comes_back (Minor.start_device rs) c = not c.started
comes_back _ c = false

-- What a card owes to a request. If it does not come back, it is completed here, or it is with the
-- lower device, and not both; if it does, it was passed down once, and then it is completed here. It
-- is completed with the returned status, and the lock is held `held` times.
pub record Answered (back : Bool) (irp : Irp) (held : ℕ) (o : CardOutcome) : Type 0 where
  pub once : ids o.completed ++ (if back then [] else ids o.passed_down) ≡ irp.id ∷ []
  pub forwarded : (if back then ids o.passed_down else irp.id ∷ []) ≡ irp.id ∷ []
  pub told : statuses o.completed ≡ replicate (length o.completed) o.result
  pub unlocked : o.card.lock_count ≡ held

abbrev granted : Irp → Irp
granted irp = record irp { status = Status.success }

complete_card-Answered :
    (s : Status) (irp : Irp) (c : Card) (held : ℕ)
    → c.lock_count ≡ held + 1
    → Answered false irp held (complete_card s irp c)
unfolding complete_card
complete_card-Answered s irp c held e = record {
  once = refl;
  forwarded = refl;
  told = refl;
  unlocked = omega arith;
}

forward_card-Answered :
    (lower : Status) (irp irp' : Irp) (c : Card) (held : ℕ)
    → irp'.id ≡ irp.id
    → c.lock_count ≡ held + 1
    → Answered false irp held (forward_card lower irp' c)
unfolding forward_card
forward_card-Answered lower irp irp' c held same e = record {
  once = ap (λ t. t ∷ []) same;
  forwarded = refl;
  told = refl;
  unlocked = omega arith;
}

query_bus_relations-Answered :
    (k : Kernel) (lower : Status) (before : List (Option ℕ)) (irp : Irp) (c : Card) (held : ℕ)
    → c.lock_count ≡ held + 1
    → Answered false irp held (query_bus_relations k lower before irp c)
unfolding query_bus_relations
query_bus_relations-Answered k lower before irp c held e = elim (Bool-cases k.pool) [
  | inl y ↦
      let passed = forward_card-Answered lower irp (granted irp) c held refl e in
      rw y (record {
        once = passed.once;
        forwarded = passed.forwarded;
        told = passed.told;
        unlocked = passed.unlocked;
      })
  | inr x ↦ rw x (complete_card-Answered Status.insufficient_resources irp c held e)
]

asked_back :
    (minor : Minor) (c : Card)
    → comes_back minor c ≡ comes_back minor (record c { lock_count = c.lock_count + 1 })
asked_back minor c =
    elim minor
      as (λ m. comes_back m c ≡ comes_back m (record c { lock_count = c.lock_count + 1 })) [
        | Minor.start_device rs ↦ refl
        | _ ↦ refl
      ]

-- A START_DEVICE, of a card that is started or not.
started-Answered :
    (started : Bool) (s : Status) (irp : Irp) (c : Card) (held : ℕ)
    → c.lock_count ≡ held + 1
    → Answered
        (not started)
        irp
        held
        (record (complete_card s irp c) { passed_down = if started then [] else irp ∷ [] })
unfolding complete_card
started-Answered true s irp c held e = record {
  once = refl;
  forwarded = refl;
  told = refl;
  unlocked = omega arith;
}
started-Answered false s irp c held e = record {
  once = refl;
  forwarded = refl;
  told = refl;
  unlocked = omega arith;
}

module _ (dev : Device) (k : Kernel) (lower : Status) where
  fdo_pnp-Answered :
      (minor : Minor) (irp : Irp) (c : Card) (log : Log) (held : ℕ)
      → c.lock_count ≡ held + 1
      → Answered (comes_back minor c) irp held (fdo_pnp dev k lower minor irp c log).0
  unfolding fdo_pnp fdo_remove set_card_state restore_card_state forward_card
  fdo_pnp-Answered (Minor.start_device rs) irp c log held e =
      let res = fdo_start dev k lower rs c log in
      started-Answered c.started res.0.0 irp res.0.1 held
        (fdo_start-lock_count dev k lower rs c log ∙ e)
  fdo_pnp-Answered (Minor.bus_relations before) irp c log held e =
      query_bus_relations-Answered k lower before irp c held e
  fdo_pnp-Answered Minor.remove_device irp c log held e =
      let passed = forward_card-Answered lower irp (granted irp) c held refl e in
      record {
        once = passed.once;
        forwarded = passed.forwarded;
        told = passed.told;
        unlocked = passed.unlocked;
      }
  fdo_pnp-Answered Minor.query_stop_device irp c log held e =
      forward_card-Answered lower irp (granted irp) _ held refl e
  fdo_pnp-Answered Minor.cancel_stop_device irp c log held e =
      forward_card-Answered lower irp (granted irp) _ held refl e
  fdo_pnp-Answered Minor.stop_device irp c log held e =
      forward_card-Answered lower irp (granted irp) _ held refl e
  fdo_pnp-Answered Minor.query_remove_device irp c log held e =
      forward_card-Answered lower irp (granted irp) _ held refl e
  fdo_pnp-Answered Minor.cancel_remove_device irp c log held e =
      forward_card-Answered lower irp (granted irp) _ held refl e
  fdo_pnp-Answered Minor.surprise_removal irp c log held e =
      forward_card-Answered lower irp (granted irp) _ held refl e
  fdo_pnp-Answered Minor.other irp c log held e = forward_card-Answered lower irp irp _ held refl e

  -- Every PnP request to a card, whatever it asks and whatever the kernel, the lower driver and the
  -- hardware answer, is completed once with the status that the routine returns, or it is passed
  -- down once and not completed. Only START_DEVICE of a card that is not started, where the lock is
  -- granted, is both: it is passed down once, and completed once with the returned status. The
  -- remove lock is held as often as before.
  pub dispatch_pnp-Answered :
      (lock : Status) (minor : Minor) (irp : Irp) (c : Card) (log : Log)
      → Answered
          (nt_success lock && comes_back minor c)
          irp
          c.lock_count
          (dispatch_pnp dev lock k lower minor irp c log).0
  unfolding dispatch_pnp
  dispatch_pnp-Answered lock minor irp c log = elim (Bool-cases (nt_success lock)) [
    | inl y ↦
        let asked = record c { lock_count = c.lock_count + 1 } in
        rw (y, asked_back minor c) (fdo_pnp-Answered minor irp asked log c.lock_count refl)
    | inr x ↦ rw x (record { once = refl; forwarded = refl; told = refl; unlocked = refl })
  ]
