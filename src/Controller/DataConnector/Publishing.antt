-- ===== src/Controller/DataConnector/Publishing.antt =====
-- The queue of messages that the broker did not take.
use edge_ems.Prelude.{
  ◌≡◌, refl, inl, inr, Bool, Bool-cases, true, false, none, some, List, [], ◌∷◌, String, str_eq,
  eq_iff, arith, if◌then◌else◌,
}
use edge_ems.Prelude.Dict.{Dict, lookup, lookup_absent, contains, insert, lookup-insert, IsDict}
use edge_ems.Controller.DataConnector.{Publisher, returned, flush, flush_pending, send}

module _ {B : Type 0} where
  absent-flush :
      (accepts : String → B → Bool) (pending : Dict B) (t : String)
      → contains t pending ≡ false
      → (contains t (flush accepts pending).0 ≡ false)
        × (contains t (flush accepts pending).1 ≡ false)
  unfolding flush
  absent-flush accepts [] t h = (refl, refl)
  absent-flush accepts ((k, b) ∷ pending) t h =
      let ih = absent-flush accepts pending t (ground arith) in
      (ground (arith, ih), ground (arith, ih))

  lookup-flush :
      (accepts : String → B → Bool) (pending : Dict B) (t : String) (b : B)
      → IsDict pending
      → lookup t pending ≡ some b
      → (lookup t (flush accepts pending).0 ≡ (if accepts t b then none else some b))
        × (lookup t (flush accepts pending).1 ≡ (if accepts t b then some b else none))
  unfolding flush
  lookup-flush accepts [] t b v h = absurd (ground arith)
  lookup-flush accepts ((k, x) ∷ pending) t b (fresh, v) h =
      let off = absent-flush accepts pending k fresh in
      elim (Bool-cases (str_eq k t)) [
        | inl same ↦
            let e = (eq_iff k t).0 same in
            (
              ground (arith, e, off, lookup_absent k (flush accepts pending).0 off.0),
              ground (arith, e, off, lookup_absent k (flush accepts pending).1 off.1),
            )
        | inr other ↦
            let ih = lookup-flush accepts pending t b v (ground arith) in
            (ground (arith, ih), ground (arith, ih))
      ]

  IsDict-flush :
      (accepts : String → B → Bool) (pending : Dict B)
      → IsDict pending
      → IsDict (flush accepts pending).0
  unfolding flush
  IsDict-flush accepts [] v = tt
  IsDict-flush accepts ((k, x) ∷ pending) (fresh, v) =
      let ih = IsDict-flush accepts pending v in
      let off = absent-flush accepts pending k fresh in
      elim (Bool-cases (accepts k x)) [ inl sends ↦ rw sends ih | inr keeps ↦ rw keeps (off.0, ih) ]

  absent-insert :
      (k t : String) (b : B) (pending : Dict B)
      → str_eq t k ≡ false
      → contains k pending ≡ false
      → contains k (insert t b pending) ≡ false
  absent-insert k t b pending other fresh = ground (arith, lookup-insert t k b pending)

  IsDict-insert :
      (t : String) (b : B) (pending : Dict B) → IsDict pending → IsDict (insert t b pending)
  IsDict-insert t b [] v = (refl, tt)
  IsDict-insert t b ((k, x) ∷ pending) (fresh, v) = elim (Bool-cases (str_eq k t)) [
    | inl same ↦ rw same (fresh, v)
    | inr other ↦
        let apart : str_eq t k ≡ false = ground (arith, eq_iff k t, eq_iff t k) in
        rw other (absent-insert k t b pending apart fresh, IsDict-insert t b pending v)
  ]

  -- At most one message of a topic waits, before and after. When the broker takes the new message,
  -- each waiting message is sent after it or goes on waiting, as the broker takes it or not. When it
  -- does not take it, nothing is sent and the new message alone waits for its topic, in place of an
  -- older one; the other topics keep theirs.
  pub send-queue :
      (accepts : String → B → Bool) (p : Publisher B) (topic : String) (body : B)
      → IsDict p.pending
      → let (p', outcome, sent) = send accepts p topic body in
        IsDict p'.pending
        × (accepts topic body ≡ true
            → (outcome ≡ returned true)
              × ((rest : List (String × B)) × (sent ≡ (topic, body) ∷ rest)
                  × ((t : String) (b : B)
                      → lookup t p.pending ≡ some b
                      → (lookup t p'.pending ≡ (if accepts t b then none else some b))
                        × (lookup t rest ≡ (if accepts t b then some b else none)))))
        × (accepts topic body ≡ false
            → (outcome ≡ returned false)
              × (sent ≡ [])
              × ((t : String)
                  → lookup t p'.pending
                    ≡ (if str_eq topic t then some body else lookup t p.pending)))
  unfolding send flush_pending
  send-queue accepts p topic body v = elim (Bool-cases (accepts topic body)) [
    | inl takes ↦ rw takes (
      IsDict-flush accepts p.pending v,
      (λ _. (
        refl,
        ((flush accepts p.pending).1, refl, λ t b h. lookup-flush accepts p.pending t b v h),
      )),
      λ e. absurd (ground arith),
    )
    | inr fails ↦ rw fails (
      IsDict-insert topic body p.pending v,
      (λ e. absurd (ground arith)),
      λ _. (refl, refl, λ t. lookup-insert topic t body p.pending),
    )
  ]
