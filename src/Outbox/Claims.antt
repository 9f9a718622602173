-- ===== src/Outbox/Claims.antt =====
-- internal/adapters/postgres/outbox_repo.go: which events `Claim` takes.
use junglegaming_backend_cha.Base.{
  take-In, sorted_where-In, ℕ, ◌≤◌, Bool, true, false, List, [], ◌∷◌, none, In, inl, inr, string_eq,
  nat_eq, count_where, ◌≡◌, arith, ◌∙◌, ap,
}
use junglegaming_backend_cha.Types.{Time}
use junglegaming_backend_cha.Store.{OutboxRow}
use junglegaming_backend_cha.Store.Outbox.Publishing.{
  claimable, candidates, precedes, blocks, lock_free,
}

-- The event may be claimed: it waits, it is due, no other publisher holds it, and no event of its
-- aggregate that still waits comes before it.
pub record IsClaimable (now cutoff : Time) (rows : List OutboxRow) (r : OutboxRow) : Type 0 where
  pub waiting : r.published_at ≡ none
  pub due : r.next_attempt_at ≤ now
  pub unlocked : lock_free cutoff r.locked_at ≡ true
  pub first :
      (x : OutboxRow)
      → In x rows
      → x.aggregate_id ≡ r.aggregate_id
      → x.published_at ≡ none
      → precedes x r ≡ false

not-counted :
    {A : Type 0} (p : A → Bool) (xs : List A) (x : A) → count_where p xs ≡ 0 → In x xs → p x ≡ false
unfolding count_where
not-counted p [] x h k = absurd k
not-counted p (y ∷ ys) x h (inl e) = ap p e ∙ ground (arith, h)
not-counted p (y ∷ ys) x h (inr k) = not-counted p ys x (ground (arith, h)) k

claimable-lem :
    (now cutoff : Time) (rows : List OutboxRow) (r : OutboxRow)
    → claimable now cutoff rows r ≡ true
    → IsClaimable now cutoff rows r
unfolding claimable
claimable-lem now cutoff rows r h = record {
  waiting = ground (arith, h);
  due = ground (arith, h);
  unlocked = ground (arith, h);
  first = λ x m a u.
      let free = not-counted (blocks r) rows x (ground (arith, h)) m in ground (arith, free, a, u);
}

-- A candidate is a row that may be claimed.
pub candidates-IsClaimable :
    (now cutoff : Time) (limit : ℕ) (rows : List OutboxRow) (r : OutboxRow)
    → In r (candidates now cutoff limit rows)
    → In r rows × IsClaimable now cutoff rows r
unfolding candidates
candidates-IsClaimable now cutoff limit rows r h =
    let (m, p) =
      sorted_where-In precedes (claimable now cutoff rows) r rows (take-In r limit _ h) in
    (m, claimable-lem now cutoff rows r p)
