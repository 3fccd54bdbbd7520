-- ===== src/Core/Modbus/Link/Backoff.antt =====
-- The backoff and the count of failures over any history of a link.
use edge_ems.Prelude.{
  ◌≡◌, ◌||◌, ◌⊎◌, Bool, false, not, ◌&&◌, List, [], ◌∷◌, ℕ, suc, String, if◌then◌else◌,
}
use edge_ems.Float.{Float, IsOrdered, ◌≼◌, ◌+◌, ◌*◌, ltb, min}
use edge_ems.Core.Modbus.Link.{
  Link, Attempt, joined, failed, record_ok, record_failure, disconnect, ensure_connected,
}

-- What happens to a link: it is used, a request succeeds or fails, it is disconnected.
pub data Use (F : Type 0) : Type 0 where
  ensured : Bool → F → Attempt → Use F
  answered : F → Use F
  erred : String → Use F
  dropped : Use F

module _ {F : Type 0} ⦃d : Float F⦄ where
  -- the link after a history, newest first
  unfoldable pub after : Link F → List (Use F) → Link F
  after l [] = l
  after l (ensured alive now attempt ∷ h) = (ensure_connected (after l h) alive now attempt).0
  after l (answered clock ∷ h) = record_ok (after l h) clock
  after l (erred error ∷ h) = record_failure (after l h) error
  after l (dropped ∷ h) = disconnect (after l h)

  -- Does `ensure_connected` try to connect, and fail?
  abbrev pub fails : Link F → Bool → F → Attempt → Bool
  fails l alive now joined = false
  fails l alive now (failed error) = not (l.has_client && alive) && not (ltb now l.next_attempt)

  -- Failed requests and failed attempts since the newest request that succeeded.
  abbrev pub failures_since : Link F → List (Use F) → ℕ
  failures_since l [] = l.health.consecutive_failures
  failures_since l (answered clock ∷ h) = 0
  failures_since l (erred error ∷ h) = suc (failures_since l h)
  failures_since l (dropped ∷ h) = failures_since l h
  failures_since l (ensured alive now attempt ∷ h) =
      let before = failures_since l h in
      if fails (after l h) alive now attempt then suc before else before

  -- The end of the backoff: that of the newest attempt that failed, from its own time on.
  abbrev pub blocked_until : Link F → List (Use F) → F
  blocked_until l [] = l.next_attempt
  blocked_until l (answered clock ∷ h) = blocked_until l h
  blocked_until l (erred error ∷ h) = blocked_until l h
  blocked_until l (dropped ∷ h) = blocked_until l h
  blocked_until l (ensured alive now attempt ∷ h) =
      let before = blocked_until l h in
      if fails (after l h) alive now attempt then now + (after l h).backoff else before

  -- The backoff: one second after an attempt that succeeds, doubled up to the maximum after one that
  -- fails.
  abbrev pub backoff_since : Link F → List (Use F) → F
  backoff_since l [] = l.backoff
  backoff_since l (answered clock ∷ h) = backoff_since l h
  backoff_since l (erred error ∷ h) = backoff_since l h
  backoff_since l (dropped ∷ h) = backoff_since l h
  backoff_since l (ensured alive now joined ∷ h) =
      let before = backoff_since l h in
      if ((after l h).has_client && alive) || ltb now (after l h).next_attempt
      then before
      else d.one
  backoff_since l (ensured alive now (failed error) ∷ h) =
      let before = backoff_since l h in
      if fails (after l h) alive now (failed error)
      then min (before * d.dec 2 0) l.max_backoff
      else before

module _ {F : Type 0} ⦃d : Float F⦄ (laws : IsOrdered F) where
  -- the backoff is that of a fresh link or at most the maximum
  abbrev IsCapped : Link F → F → Type 0
  IsCapped l m = (l.backoff ≡ d.one) ⊎ (l.backoff ≼ m)
