-- ===== src/Store/Inbox/Claims.antt =====
-- internal/adapters/postgres/inbox_repo.go: what `Claim` and `Complete` leave in the inbox.
use junglegaming_backend_cha.Store.Post.{
  Post-kept, Post, Post-bind, Post-after, Post-statement, Post-query, Post-pure,
}
use junglegaming_backend_cha.Store.{Tables, InboxRow}
use junglegaming_backend_cha.Store.Frame.{
  Frames, Frames-bind, Frames-query, Frames-pure, Frames-draw,
}
use junglegaming_backend_cha.Base.{
  Bool-cases, Bool, refl, ◌≡◌, true, false, some, inl, inr, arith, eq_refl, Option-cases, ◌∙◌,
  string_eq, nat_eq, List, ap, select, select-append, count-none, select-updated, String,
}
use junglegaming_backend_cha.AppErr.{ok}
use junglegaming_backend_cha.Store.Inbox.{
  inbox_of, claimed, seen, Claim, scan_inbox, insert_inbox_row, by_message, claim_message,
  after_insert, get_inbox, received, InboxRecord, complete_rows, complete_message, set_completed,
}
use junglegaming_backend_cha.Types.{Time}

-- The inbox has this message with this hash.
abbrev pub IsRecorded : String → String → String → List InboxRow → Type 0
IsRecorded consumer message hash rows =
    (row : InboxRow) × (select (by_message consumer message) rows ≡ some row)
    × (row.payload_hash ≡ hash)

-- What a claim leaves in the inbox.
abbrev pub ClaimEnds : String → String → String → Claim → List InboxRow → Type 0
ClaimEnds consumer message hash claimed rows = IsRecorded consumer message hash rows
ClaimEnds consumer message hash (seen r) rows = IsRecorded consumer message r.payload_hash rows

insert_inbox_row-recorded :
    (r : InboxRow) (t : Tables)
    → (insert_inbox_row r t).0 ≡ ok true
    → select (by_message r.consumer_name r.message_id) (insert_inbox_row r t).1.inbox ≡ some r
unfolding insert_inbox_row
insert_inbox_row-recorded r t h =
    let free = count-none (by_message r.consumer_name r.message_id) t.inbox in
    let last = select-append (by_message r.consumer_name r.message_id) r t.inbox in
    ground (arith, h, free, last, eq_refl r.consumer_name, eq_refl r.message_id)

Frames-after_insert :
    (consumer message : String) (inserted : Bool)
    → Frames inbox_of (after_insert consumer message inserted)
unfolding after_insert get_inbox
Frames-after_insert consumer message true = Frames-pure _ _
Frames-after_insert consumer message false =
    Frames-bind _ (Frames-query _ _ _) (λ r. Frames-pure _ _)

module _ (consumer message hash : String) where
  scan_inbox-IsRecorded :
      (rows : List InboxRow) (r : InboxRecord)
      → scan_inbox (select (by_message consumer message) rows) ≡ ok r
      → IsRecorded consumer message r.payload_hash rows
  unfolding scan_inbox
  scan_inbox-IsRecorded rows r h = elim (Option-cases (select (by_message consumer message) rows)) [
    | inl p ↦ absurd (ground (arith, h, p))
    | inr (row, p) ↦ (row, p, ground (arith, h, p))
  ]

  after_insert-Post :
      (x : List InboxRow) (inserted : Bool)
      → (inserted ≡ true → IsRecorded consumer message hash x)
      → Post inbox_of x (after_insert consumer message inserted) (ClaimEnds consumer message hash)
  unfolding after_insert get_inbox
  after_insert-Post x true h = Post-pure _ _ (h refl)
  after_insert-Post x false h =
      Post-bind _ {Q = λ r y. IsRecorded consumer message r.payload_hash y}
        (Post-query _ _ _ (λ t r e p. scan_inbox-IsRecorded t.inbox r p)) (λ r y k. Post-pure _ _ k)

  -- A claim has the message with this hash, or with the hash that it came with first.
  pub claim_message-Post :
      (x : List InboxRow) (now : Time)
      → Post inbox_of x (claim_message consumer message hash now) (ClaimEnds consumer message hash)
  unfolding claim_message
  claim_message-Post x now = Post-after _ (Frames-draw _) (λ id.
      Post-bind _ {Q = λ b y. b ≡ true → IsRecorded consumer message hash y}
        (Post-statement _ _ _ (λ t b e p k.
          let row = received id consumer message hash now in
          (row, insert_inbox_row-recorded row t (p ∙ ap (λ c. ok c) k), refl)))
        (λ b y k. after_insert-Post y b k))

module _ (consumer message hash : String) (x : List InboxRow)
    (h : IsRecorded consumer message hash x) where
  insert_inbox_row-keeps :
      (r : InboxRow) (t : Tables)
      → t.inbox ≡ x
      → IsRecorded consumer message hash (insert_inbox_row r t).1.inbox
  unfolding insert_inbox_row
  insert_inbox_row-keeps r t e =
      let (row, found, same) = h in
      let last = select-append (by_message consumer message) r t.inbox in
      (row, ground (arith, e, found, last), same)

  -- A claim of any message keeps the record of this one,
  pub claim_message-Keeps :
      (c m g : String) (now : Time)
      → Post inbox_of x (claim_message c m g now) (λ a y. IsRecorded consumer message hash y)
  unfolding claim_message
  claim_message-Keeps c m g now = Post-after _ (Frames-draw _) (λ id.
      Post-bind _ {Q = λ b y. IsRecorded consumer message hash y}
        (Post-statement _ _ _ (λ t b e p. insert_inbox_row-keeps _ t e))
        (λ b y k. Post-kept _ (IsRecorded consumer message hash) (Frames-after_insert c m b) k))

  -- and so does its completion.
  pub complete_message-Keeps :
      (c m : String) (now : Time)
      → Post inbox_of x (complete_message c m now) (λ a y. IsRecorded consumer message hash y)
  unfolding complete_message complete_rows
  complete_message-Keeps c m now =
      let (row, found, same) = h in
      Post-statement _ _ _ (λ t a e p.
        let kept =
          select-updated (by_message consumer message) (by_message c m) (set_completed now) t.inbox
            row (λ y. refl) in
        elim (Bool-cases (by_message c m row)) [
          | inl q ↦ (set_completed now row, ground (arith, p, e, q, found, kept), same)
          | inr q ↦ (row, ground (arith, p, e, q, found, kept), same)
        ])
