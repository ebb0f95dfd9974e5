-- ===== src/PromptHook.antt =====
-- hooks/user_prompt_submit_inbox_drain.py: pending messages are attached to the user's next
-- prompt. `meanwhile` is what other processes do between the listing of the files and the loop;
-- files that do not parse, the log and the key "delivered_via_hook_at", which nothing reads, are
-- not modelled. `root` is the path of the mailboxes.
pub mod Attach
use teammate_mcp.Base.{
  ltb, leb, if◌then◌else◌, Eq, option_eq, nat_eq, text_eq, length, take, drop, keep, ℕ, zero, suc,
  ◌+◌, ◌-◌, ◌/◌, ◌<◌, Bool, not, ◌&&◌, ◌||◌, Option, none, some, List, [], ◌∷◌, ◌++◌, arith,
}
use teammate_mcp.Base.Text.{Text, str, between}
use teammate_mcp.Base.Dict.{get}
use teammate_mcp.Registry.{nonempty}
use teammate_mcp.Mailbox.{Message, Box, Home, box, set_box}
use teammate_mcp.Lease.{Probe, hook_delivery_lock}
use teammate_mcp.Queue.{digits, width}
use teammate_mcp.StopHook.{text_or_unknown, join_blocks, move_file, available_files}

-- `_env_int`; a value that is no number is `none`.
unfoldable pub env_int : Option ℕ → ℕ → ℕ
env_int none default = default
env_int (some value) default = if ltb 0 value then value else default

-- The bytes of a code point in UTF-8.
unfoldable pub utf8_width : ℕ → ℕ
utf8_width c = if ltb c 128 then 1 else if ltb c 2048 then 2 else if ltb c 65536 then 3 else 4

unfoldable pub utf8_length : Text → ℕ
unfolding utf8_width
utf8_length [] = 0
utf8_length (c ∷ s) = utf8_width c + utf8_length s

-- `body_bytes[:n].decode("utf-8", errors="ignore")`: a code point that is cut is dropped.
unfoldable pub utf8_prefix : ℕ → Text → Text
unfolding utf8_width
utf8_prefix n [] = []
utf8_prefix n (c ∷ s) =
    let rest = utf8_prefix (n - utf8_width c) s in if leb (utf8_width c) n then c ∷ rest else []

abbrev pub decimal : ℕ → Text
decimal n = digits (width n n) n

-- The body of a block, cut to `max_body_bytes`.
unfoldable pub bounded_body : Text → Text → Text → ℕ → Text → Text
unfolding utf8_length utf8_prefix digits width
bounded_body root label name max_body_bytes body =
    if ltb max_body_bytes (utf8_length body)
    then utf8_prefix max_body_bytes body
      ++ (str "\n\n[truncated by teammate-mcp hook: original body is "
          ++ (decimal (utf8_length body)
              ++ (str " bytes. After this hook finishes, read the full JSON at "
                  ++ (root
                      ++ (str "/" ++ (label ++ (str "/processed/" ++ (name ++ str ".json]"))))))))
    else body

unfoldable pub attach_block : Text → Text → Text → ℕ → Message → Text
unfolding bounded_body
attach_block root label name max_body_bytes m =
    str "[teammate-mcp inbox: ASK from="
    ++ (text_or_unknown m.from_
        ++ (str " job_id="
            ++ (m.job_id
                ++ (str "]\n"
                    ++ (bounded_body root label name max_body_bytes m.body
                        ++ (str "\n(To reply: `mcp__teammate__reply(job_id='"
                            ++ (m.job_id
                                ++ (str "', label='"
                                    ++ (label
                                        ++ (str
                                              "', question='<reply>')`. Do not use Bash or write XML/tool tags for teammate replies. After replying, optionally call mcp__teammate__mark_processed(job_id='"
                                            ++ (m.job_id
                                                ++ (str "', target='"
                                                    ++ (label
                                                        ++ str
                                                            "', reply='<reply>') to archive.)")))))))))))))

-- A file that is gone is skipped.
unfoldable pub add_block : Text → Text → Text → ℕ → Option Message → List Text → List Text
unfolding attach_block
add_block root label name max_body_bytes none blocks = blocks
add_block root label name max_body_bytes (some m) blocks =
    attach_block root label name max_body_bytes m ∷ blocks

-- The loop over the selected files: the blocks, and the mailbox after the moves.
unfoldable pub attach : Text → Text → ℕ → Box → List Text → List Text × Box
unfolding add_block move_file
attach root label max_body_bytes b [] = ([], b)
attach root label max_body_bytes b (j ∷ js) =
    let r = attach root label max_body_bytes (move_file b j) js in
    (add_block root label j max_body_bytes (get b.inbox j) r.0, r.1)

abbrev pub deferred_note : Text → Text → ℕ → Text
deferred_note root label zero = []
deferred_note root label (suc n) =
    str "\n"
    ++ (decimal (suc n)
        ++ (str " additional message(s) remain queued in "
            ++ (root
                ++ (str "/"
                    ++ (label
                        ++ (str
                              "/inbox. They were not attached to keep this prompt bounded; submit another prompt or run `teammate-mcp drain "
                            ++ (label ++ str "` to process the next batch.")))))))

-- The text that is attached to the prompt.
unfoldable pub attached_text : Text → Text → ℕ → List Text → Option Text
unfolding digits width
attached_text root label deferred [] = none
attached_text root label deferred (b ∷ blocks) = some (
    str "════ teammate-mcp inbox (drained) ════\nYou ("
    ++ (label
        ++ (str ") have "
            ++ (decimal (length (b ∷ blocks))
                ++ (str
                      " pending message(s) from other panes. Address them along with the user's request — for each, send a reply via reverse async ask so the original sender's mailbox is updated."
                    ++ (deferred_note root label deferred
                        ++ (str "\n\n"
                            ++ (join_blocks (b ∷ blocks) ++ str "\n════ end inbox ════\n"))))))))

-- What the environment sets: the pause file, and the two limits.
pub record Limits : Type 0 where
  pub paused : Bool
  pub max_attach : Option ℕ
  pub max_body_bytes : Option ℕ

unfoldable pub attach_pending :
    (ℕ → Probe) → ℕ → Text → Text → Limits → (Home → Home) → Home → Home × Option Text
unfolding attach attached_text env_int
attach_pending probe now root label limits meanwhile h =
    let files = available_files probe now (box h label) in
    let max_attach = env_int limits.max_attach 5 in
    if limits.paused || not (nonempty files)
    then (h, none)
    else let h' = meanwhile h in
      let r =
        attach root label (env_int limits.max_body_bytes 16384) (box h' label)
          (take max_attach files) in
      (set_box h' label r.1, attached_text root label (length (drop max_attach files)) r.0)

unfoldable pub submit :
    (ℕ → Probe) → ℕ → Text → Text → Bool → Limits → (Home → Home) → Home → Home × Option Text
unfolding attach_pending hook_delivery_lock
submit probe now root label lock_free limits meanwhile h =
    if nonempty label && hook_delivery_lock h label lock_free
    then attach_pending probe now root label limits meanwhile h
    else (h, none)
