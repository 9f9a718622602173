-- ===== src/Consumer/Once.antt =====
-- internal/app/consumer/wager.go: a message that `Handle` acknowledges is in the inbox.
use junglegaming_backend_cha.Base.{
  eq_iff, ◌∙◌, Bool-cases, true, ◌≢◌, Bool, ◌==◌, ◌≡◌, inl, inr, arith, string_eq, List, String,
}
use junglegaming_backend_cha.Store.{InboxRow, Db}
use junglegaming_backend_cha.Store.Post.{
  Post, Post-bind, Post-after, Post-then, Post-lift, Post-within_transaction,
}
use junglegaming_backend_cha.Store.Inbox.Claims.{
  complete_message-Keeps, IsRecorded, ClaimEnds, claim_message-Post,
}
use junglegaming_backend_cha.AppErr.{ok, raise_if, Error, Result-cases}
use junglegaming_backend_cha.Wager.{Config, ProcessCommand}
use junglegaming_backend_cha.Consumer.{
  consumer_name, classified, handle_claim, handle_once, handle_request,
}
use junglegaming_backend_cha.Store.Frame.{Frames-now_from_clock, Frames-lift, Frames}
use junglegaming_backend_cha.Store.Inbox.{inbox_of, claimed, seen, Claim}
use junglegaming_backend_cha.Wager.Frame.Process.{Frames-process}
use junglegaming_backend_cha.Types.{Time}

Frames-classified : {A : Type 0} {m : Db A} → Frames inbox_of m → Frames inbox_of (classified m)
unfolding classified
Frames-classified {m = m} h = record {
  frame = λ env w. elim (Result-cases (m env w).0) [
    | inl (a, p) ↦ rw (classified, p) (h.frame env w)
    | inr (e, p) ↦ rw (classified, p) (h.frame env w)
  ];
}

refused : (b : Bool) (e : Error) {a : Unit {0}} → b ≡ true → raise_if b e ≢ ok a
refused b e h k = ground (arith, h, k)

module _ (config : Config) (cmd : ProcessCommand) (id hash : String) where
  handle_claim-Post :
      (x : List InboxRow) (c : Claim)
      → ClaimEnds consumer_name id hash c x
      → Post inbox_of x
          (handle_claim config cmd id hash c)
          (λ a y. IsRecorded consumer_name id hash y)
  unfolding handle_claim
  handle_claim-Post x claimed h =
      Post-then _ (Frames-classified (Frames-process config cmd))
        (Post-after _ (Frames-now_from_clock _) (λ now. complete_message-Keeps _ _ _ x h _ _ now))
  handle_claim-Post x (seen r) (row, found, same) = Post-lift _ _ (λ a p. (
    row,
    found,
    elim (Bool-cases (r.payload_hash == hash)) [
      | inl q ↦ same ∙ (eq_iff r.payload_hash hash).0 q
      | inr q ↦ absurd (refused _ _ (ground (arith, q)) p)
    ],
  ))

  handle_once-Post :
      (x : List InboxRow) (now : Time)
      → Post inbox_of x
          (handle_once config cmd id hash now)
          (λ a y. IsRecorded consumer_name id hash y)
  unfolding handle_once
  handle_once-Post x now =
      Post-bind _ (claim_message-Post consumer_name id hash x now)
        (λ c y h. handle_claim-Post y c h)

  pub handle_request-Post :
      (x : List InboxRow)
      → Post inbox_of x
          (handle_request config hash (id, cmd))
          (λ a y. IsRecorded consumer_name id hash y)
  unfolding handle_request
  handle_request-Post x = Post-then _ (Frames-lift _ _) (
      Post-after _ (Frames-now_from_clock _)
        (λ now. Post-within_transaction _ (handle_once-Post x now)))
