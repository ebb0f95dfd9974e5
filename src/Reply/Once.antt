-- ===== src/Reply/Once.antt =====
-- src/teammate_mcp/server.py: how often a question is answered, where calls are cut off and tried
-- again.
use teammate_mcp.Base.{
  if◌then◌else◌, Bool-cases, Option-cases, ==_refl, option_eq, nat_eq, text_eq, All, ℕ, ◌+◌, ◌≤◌,
  ◌≡◌, refl, ap, ◌∙◌, inl, inr, Bool, true, false, Option, none, some, List, [], ◌∷◌, arith,
}
use teammate_mcp.Base.Text.{Text}
use teammate_mcp.Base.Dict.{get, get-put}
use teammate_mcp.Response.{Response, dispatching, failed, sent}
use teammate_mcp.Mailbox.{
  Status, Terminal, Message, Box, Home, box, set_box, write_history, write_pending, write_inbox,
  save_processed_receipt, move_to_processed,
}
use teammate_mcp.Ask
use teammate_mcp.Ask.{
  Writes, all_files, only_history, no_file, unfinished, Server, Call, Refusal, is_refused, ask,
}
use teammate_mcp.Ask.Queued.{ask_effect}
use teammate_mcp.Reply.{
  Crash, before_send, after_send, before_receipt, set_response, response, receipt, original,
  sender_of, conversation_of, Called, after_ask, send_reply, by_state, reply_to,
}

-- The state after which no call sends again.
abbrev pub is_spent : Option Response → Bool
is_spent (some (sent old result)) = true
is_spent (some (dispatching old)) = true
is_spent _ = false

responses-set_box :
    (h : Home) (target label : Text) (b : Box)
    → b.responses ≡ (box h target).responses
    → (box (set_box h target b) label).responses ≡ (box h label).responses
responses-set_box h target label b e = ground (arith, e, get-put h.boxes target label b)

responses-write_inbox :
    (h : Home) (target label : Text) (m : Message)
    → (box (write_inbox h target m) label).responses ≡ (box h label).responses
unfolding write_inbox write_pending write_history
responses-write_inbox h target label m = responses-set_box h target label _ refl

responses-unfinished :
    (w : Writes) (h : Home) (target label : Text) (m : Message)
    → (box (unfinished w h target m) label).responses ≡ (box h label).responses
unfolding unfinished write_history
responses-unfinished all_files h target label m = refl
responses-unfinished only_history h target label m = responses-set_box h target label _ refl
responses-unfinished no_file h target label m = refl

responses-move :
    (h h' : Home) (target label job_id : Text) (new : Terminal)
    → move_to_processed h target job_id new ≡ some h'
    → (box h' label).responses ≡ (box h label).responses
unfolding move_to_processed save_processed_receipt
responses-move h h' target label job_id new done = ground (
  arith,
  done,
  responses-set_box h target label (save_processed_receipt (box h target) job_id new) refl,
)

response-receipt :
    (s : Server) (label job_id reply result : Text)
    → response (receipt s label job_id reply result) label job_id ≡ response s label job_id
unfolding receipt
response-receipt s label job_id reply result =
    elim (Option-cases (move_to_processed s.home label job_id t)) [
      | inl e ↦ rw e
      | inr (h', e) ↦
          rw e (ap (λ r. get r job_id) (responses-move s.home h' label label job_id t e))
    ]
  where
    t : Terminal
    t = record { status = Status.completed; reply = reply; delivery_result = some result }

response-set_response :
    (s : Server) (label job_id : Text) (r : Response)
    → response (set_response s label job_id r) label job_id ≡ some r
unfolding set_response
response-set_response s label job_id r = simp (get-put, ==_refl) refl

-- The other processes leave the response file alone while its lock is held.
abbrev pub IsUndisturbed : Call → Text → Text → Type 0
IsUndisturbed c label job_id =
    (h : Home)
    → get (box (c.meanwhile h) label).responses job_id ≡ get (box h label).responses job_id

module _ (s : Server) (c : Call) (label job_id : Text) (u : IsUndisturbed c label job_id) where
  response-ask :
      (sender reply conversation : Text)
      → response (ask s c sender reply sender job_id conversation).1 label job_id
        ≡ response s label job_id
  response-ask sender reply conversation =
      let (accepted, rejected) = ask_effect s c sender reply sender job_id conversation in
      elim (Bool-cases (is_refused (ask s c sender reply sender job_id conversation).0)) [
        | inl r ↦ elim (rejected r) [
          | inl e ↦ ap (λ h. get (box h label).responses job_id) e
          | inr (w, m, e) ↦
              ap (λ h. get (box h label).responses job_id) e
              ∙ (ap (λ r. get r job_id) (responses-unfinished w (c.meanwhile s.home) sender label m)
                  ∙ u s.home)
        ]
        | inr a ↦
            let (endpoint, m, _, _, e, _, _) = accepted a in
            ap (λ h. get (box h label).responses job_id) e
            ∙ (ap (λ r. get r job_id) (responses-write_inbox (c.meanwhile s.home) sender label m)
                ∙ u s.home)
      ]

after_ask_spent :
    (crash : Crash) (label job_id reply : Text) (p : Ask.Reply × Server)
    → response p.1 label job_id ≡ some (dispatching reply)
    → (after_ask crash label job_id reply p).asked ≡ true
    → is_spent (response (after_ask crash label job_id reply p).server label job_id) ≡ true
after_ask_spent after_send label job_id reply (r, s) e t = rw e
after_ask_spent crash label job_id reply (Ask.Reply.refused r, s) e t = cc
after_ask_spent before_receipt label job_id reply (Ask.Reply.queued_mailbox id to, s) e t =
    rw response-set_response
after_ask_spent before_receipt label job_id reply (Ask.Reply.queued_channel id to ok, s) e t =
    rw response-set_response
after_ask_spent crash label job_id reply (Ask.Reply.queued_mailbox id to, s) e t =
    rw (response-receipt, response-set_response)
after_ask_spent crash label job_id reply (Ask.Reply.queued_channel id to ok, s) e t =
    rw (response-receipt, response-set_response)

module _ (s : Server) (c : Call) (crash : Crash) (lock_free : Bool)
    (label job_id reply : Text) where
  abbrev call : Called
  call = reply_to s c crash lock_free label job_id reply

  by_state_spent :
      (o : Option Response)
      → response s label job_id ≡ o
      → is_spent o ≡ true
      → ((by_state s c crash label job_id reply o).asked ≡ false)
        × (response (by_state s c crash label job_id reply o).server label job_id
            ≡ response s label job_id)
  by_state_spent none e h = cc
  by_state_spent (some (failed x)) e h = cc
  by_state_spent (some (dispatching x)) e h = (refl, refl)
  by_state_spent (some (sent x y)) e h = (refl, response-receipt s label job_id x y)

  -- A question that is answered, or whose answer was cut off while it was being sent, is not asked
  -- about again: the call sends nothing and keeps the stored state.
  pub spent_stops :
      is_spent (response s label job_id) ≡ true
      → (call.asked ≡ false) × (response call.server label job_id ≡ response s label job_id)
  unfolding reply_to
  spent_stops h =
      let (n, k) = by_state_spent (response s label job_id) refl h in ground (arith, n, k)

send_reply_spent :
    (s : Server) (c : Call) (crash : Crash) (label job_id reply sender conversation : Text)
    → IsUndisturbed c label job_id
    → (send_reply s c crash label job_id reply sender conversation).asked ≡ true
    → is_spent
        (response (send_reply s c crash label job_id reply sender conversation).server label job_id)
      ≡ true
unfolding send_reply
send_reply_spent s c before_send label job_id reply sender conversation u t = cc
send_reply_spent s c crash label job_id reply sender conversation u t =
    after_ask_spent crash label job_id reply
      (ask (set_response s label job_id (dispatching reply)) c sender reply sender job_id
        conversation)
      (response-ask (set_response s label job_id (dispatching reply)) c label job_id u sender reply
          conversation
        ∙ response-set_response s label job_id (dispatching reply))
      t

by_state_asked :
    (s : Server) (c : Call) (crash : Crash) (label job_id reply : Text) (o : Option Response)
    → IsUndisturbed c label job_id
    → (by_state s c crash label job_id reply o).asked ≡ true
    → is_spent (response (by_state s c crash label job_id reply o).server label job_id) ≡ true
by_state_asked s c crash label job_id reply (some (sent x y)) u t = cc
by_state_asked s c crash label job_id reply (some (dispatching x)) u t = cc
by_state_asked s c crash label job_id reply o u t =
    elim (Option-cases (sender_of (original (box s.home label) job_id))) [
      | inl e ↦ absurd (ground (arith, e, t))
      | inr (sender, e) ↦
          let conversation = conversation_of (original (box s.home label) job_id) job_id in
          rw (e, by_state)
            (send_reply_spent s c crash label job_id reply sender conversation u
              (rw (e, by_state) at t))
    ]

-- If a call's answer went out, the question is spent.
pub asked_is_spent :
    (s : Server) (c : Call) (crash : Crash) (lock_free : Bool) (label job_id reply : Text)
    → IsUndisturbed c label job_id
    → (reply_to s c crash lock_free label job_id reply).asked ≡ true
    → is_spent (response (reply_to s c crash lock_free label job_id reply).server label job_id)
      ≡ true
unfolding reply_to
asked_is_spent s c crash lock_free label job_id reply u t =
    ground (arith, t, by_state_asked s c crash label job_id reply (response s label job_id) u)

-- One call of `reply`, and what other processes do after it.
pub record Try : Type 0 where
  pub call : Call
  pub crash : Crash
  pub lock_free : Bool
  pub reply : Text
  pub others : Server → Server

-- Calls of `reply` to one question, in order; how many of them sent an answer.
unfoldable pub reply_all : Server → Text → Text → List Try → Server × ℕ
reply_all s label job_id [] = (s, 0)
reply_all s label job_id (t ∷ ts) =
    let r = reply_to s t.call t.crash t.lock_free label job_id t.reply in
    let (s', n) = reply_all (t.others r.server) label job_id ts in
    (s', (if r.asked then 1 else 0) + n)

abbrev pub IsFair : Text → Text → Try → Type 0
IsFair label job_id t =
    IsUndisturbed t.call label job_id
    × ((s : Server) → response (t.others s) label job_id ≡ response s label job_id)

reply_all-spent :
    (s : Server) (label job_id : Text) (ts : List Try)
    → All (IsFair label job_id) ts
    → is_spent (response s label job_id) ≡ true
    → (reply_all s label job_id ts).1 ≡ 0
unfolding reply_all
reply_all-spent s label job_id [] f h = refl
reply_all-spent s label job_id (t ∷ ts) (f, fs) h =
    let (n, k) = spent_stops s t.call t.crash t.lock_free label job_id t.reply h in
    rw n (
      omega (
        arith,
        reply_all-spent
            (t.others (reply_to s t.call t.crash t.lock_free label job_id t.reply).server) label
            job_id ts fs (rw (f.1, k) h),
      ))

-- However often `reply` is called for one question, with whatever texts and cut off wherever, at
-- most one answer is sent, as long as the other processes leave its response file alone.
pub reply_all_once :
    (s : Server) (label job_id : Text) (ts : List Try)
    → All (IsFair label job_id) ts
    → (reply_all s label job_id ts).1 ≤ 1
unfolding reply_all
reply_all_once s label job_id [] f = omega arith
reply_all_once s label job_id (t ∷ ts) (f, fs) =
    elim (Bool-cases (reply_to s t.call t.crash t.lock_free label job_id t.reply).asked) [
      | inl a ↦
          let spent = asked_is_spent s t.call t.crash t.lock_free label job_id t.reply f.0 a in
          rw a (
            omega (
              arith,
              reply_all-spent
                  (t.others (reply_to s t.call t.crash t.lock_free label job_id t.reply).server)
                  label job_id ts fs (rw f.1 spent),
            ))
      | inr n ↦ rw n (
          omega (
            arith,
            reply_all_once
                (t.others (reply_to s t.call t.crash t.lock_free label job_id t.reply).server) label
                job_id ts fs,
          ))
    ]
