-- ===== src/Server/Finish.antt =====
-- finishReservation, for Confirm and for Release.
use Prim.Native.String.{String}
use text.Mathlib.Text.{◌==◌ as str_eq}
use lottery_search_system.Prelude.{
  ℕ, ◌≡◌, ◌≢◌, refl, ap, sym, ◌∙◌, true, false, List, Option, some, none, ◌>>=◌, none-ne-some,
  Bool-cases, Option-cases, inl, inr, some_inj, ◌⊎◌,
}
use lottery_search_system.TicketStore.{not_held, lease_expired, ticket_not_found}
use lottery_search_system.Server.{
  Failure, known, unexpected, Body, status_ok, error, Response, reply, parse_id, finish_reservation,
  status_for_error,
}

true-ne-false : true ≢ false
true-ne-false e = cc

module _ {S : Type 0} (action : S → ℕ → String → Option (S × Option Failure)) (s : S) where
  -- What is answered once the action has returned.
  abbrev pub told : S × Option Failure → Option (S × Response)
  told (s', none) = some (s', reply 200 status_ok)
  told (s', some (known ticket_not_found)) = some (s', reply 404 (error "no such reservation"))
  told (s', some (known not_held)) = some (s', reply 409 (error "you are not holding this ticket"))
  told (s', some (known lease_expired)) =
      some (s', reply 410 (error "the hold on this ticket has expired"))
  told (s', some unexpected) = some (s', reply 500 (error "unexpected error"))

  abbrev pub Acts : List ℕ → Option String → Type 0
  Acts raw decoded =
      (id : ℕ) × (holder : String) × (parse_id raw ≡ some id)
      × (decoded ≡ some holder)
      × (str_eq holder "" ≡ false)
      × (finish_reservation action s raw decoded ≡ (action s id holder >>= told))

  abbrev pub Rejects : List ℕ → Option String → Type 0
  Rejects raw decoded =
      ((id : ℕ) (holder : String)
        → parse_id raw ≡ some id
        → decoded ≡ some holder
        → str_eq holder "" ≢ false)
      × (b : Body) × (finish_reservation action s raw decoded ≡ some (s, reply 400 b))

  answer : S → Option Failure → Option (S × Response)
  answer s' err = elim err [
    | some e ↦ let (code, msg) = status_for_error e in some (s', reply code (error msg))
    | none ↦ some (s', reply 200 status_ok)
  ]

  answer-told : (s' : S) (err : Option Failure) → answer s' err ≡ told (s', err)
  unfolding answer status_for_error
  answer-told s' none = refl
  answer-told s' (some (known ticket_not_found)) = refl
  answer-told s' (some (known not_held)) = refl
  answer-told s' (some (known lease_expired)) = refl
  answer-told s' (some unexpected) = refl

  bind-told : (m : Option (S × Option Failure)) → (m >>= λ (s', err). answer s' err) ≡ (m >>= told)
  bind-told none = refl
  bind-told (some (s', err)) = answer-told s' err

  -- The action is taken exactly for an id that parseID accepts and a body that decodes to a holder
  -- that is not empty. It is answered 200 if it returns nil, and by the error it returns otherwise:
  -- 404 for an unknown ticket, 409 for one not held, 410 for a lease that ran out, 500 for any
  -- other. Every other request is answered 400 and leaves the store as it was.
  pub finish_reservation-Acts :
      (raw : List ℕ) (decoded : Option String) → Acts raw decoded ⊎ Rejects raw decoded
  unfolding finish_reservation answer
  finish_reservation-Acts raw decoded = elim (Option-cases (parse_id raw)) [
    | inl bad ↦ inr (
      (λ id holder good same e. none-ne-some (sym bad ∙ good)),
      error "reservation id must be a non-negative integer",
      rw (finish_reservation, bad) refl,
    )
    | inr (id, good) ↦ elim (Option-cases decoded) [
      | inl bad ↦ inr (
        (λ id' holder g same e. none-ne-some (sym bad ∙ same)),
        error "malformed JSON body",
        rw (finish_reservation, good, bad) refl,
      )
      | inr (holder, same) ↦ elim (Bool-cases (str_eq holder "")) [
        | inl empty ↦ inr (
          (λ id' other g again e.
              true-ne-false (sym empty ∙ ap (λ h. str_eq h "") (some_inj (sym same ∙ again)) ∙ e)),
          error "holder is required",
          rw (finish_reservation, good, same, empty) refl,
        )
        | inr named ↦ inl (
          id,
          holder,
          good,
          same,
          named,
          rw (finish_reservation, good, same, named) (bind-told (action s id holder)),
        )
      ]
    ]
  ]
