-- ===== src/StopHook.antt =====
-- hooks/stop_inbox_drain.py: at the end of a turn, pending messages are fed back to the session.
-- `meanwhile` is what other processes do between the reads of the files and their moves; files
-- that do not parse and the log are not modelled.
pub mod Drain
use teammate_mcp.Base.{
  if◌then◌else◌, Eq, ◌==◌, option_eq, nat_eq, text_eq, length, take, keep, ℕ, ◌+◌, ◌-◌, ◌/◌, ◌<◌,
  Bool, false, not, ◌&&◌, ◌||◌, Option, none, some, List, [], ◌∷◌, ◌++◌, map, arith,
}
use teammate_mcp.Base.Text.{Text, str, between, upper, strip, ends_with}
use teammate_mcp.Base.Dict.{get, put, pop, keys, find_item}
use teammate_mcp.Base.Order.{sorted}
use teammate_mcp.Registry.{nonempty, Registry}
use teammate_mcp.Mailbox.{Message, Box, Home, box, set_box}
use teammate_mcp.Lease.{Probe, available_to_hook, hook_delivery_lock}
use teammate_mcp.Queue.{digits, width}

-- `tsid.split(":", 1)[1] if ":" in tsid else tsid`
unfoldable pub after_colon : Text → Option Text
unfolding nat_eq
after_colon [] = none
after_colon (c ∷ s) = let rest = after_colon s in if c == b':' then some s else rest

abbrev pub tail_of : Text → Text
tail_of tsid = elim (after_colon tsid) [ none ↦ upper tsid | some s ↦ upper s ]

abbrev pub is_pane : Text → Text → Bool
is_pane tail sid = nonempty sid && (sid == tail || ends_with sid tail || ends_with tail sid)

-- `explicit` is TEAMMATE_LABEL and `tsid` TERM_SESSION_ID.
unfoldable pub resolve_label : Registry → Text → Text → Text
resolve_label d explicit tsid =
    if nonempty (strip explicit)
    then strip explicit
    else if not (nonempty (tail_of tsid))
    then []
    else elim (find_item (λ l r. is_pane (tail_of tsid) (upper r.session_id)) d) [
      | none ↦ []
      | some (l, r) ↦ l
    ]

abbrev pub text_or_unknown : Option Text → Text
text_or_unknown none = str "unknown"
text_or_unknown (some t) = t

unfoldable pub format_block : Text → Message → Text
format_block label m =
    str "[teammate-mcp inbox: ASK from="
    ++ (text_or_unknown m.from_
        ++ (str " job_id="
            ++ (m.job_id
                ++ (str "]\n"
                    ++ (m.body
                        ++ (str "\n(Reply via mcp__teammate__reply(job_id='"
                            ++ (m.job_id
                                ++ (str "', label='"
                                    ++ (label
                                        ++ str
                                            "', question='<reply>') — not Bash, not XML tool tags.)")))))))))

-- `"\n────\n".join(blocks)`
abbrev pub join_blocks : List Text → Text
join_blocks [] = []
join_blocks (b ∷ []) = b
join_blocks (b ∷ c ∷ bs) = b ++ (str "\n────\n" ++ join_blocks (c ∷ bs))

unfoldable pub format_reason : Text → List Message → Text
unfolding digits width format_block
format_reason label records =
    str "You ("
    ++ (label
        ++ (str ") have "
            ++ (digits (width (length records) (length records)) (length records)
                ++ (str
                      " pending teammate message(s) that arrived while you were working. Process each and reply via reverse async ask before stopping.\n\n"
                    ++ join_blocks (map (format_block label) records)))))

-- `none` allows the stop; a text blocks it and is what the session goes on with.
unfoldable pub decide : List Message → Bool → ℕ → Text → Option Text
unfolding format_reason
decide records stop_hook_active max_attach label =
    if stop_hook_active
    then none
    else if not (nonempty records)
    then none
    else some (format_reason label (take max_attach records))

-- Write the file under processed/, then remove it from inbox/; a file that is gone is skipped.
unfoldable pub move_file : Box → Text → Box
move_file b j = elim (get b.inbox j) [
  | none ↦ b
  | some m ↦ record b { processed = put b.processed j m; inbox = pop b.inbox j }
]

unfoldable pub move_files : Box → List Text → Box
move_files b [] = b
move_files b (j ∷ js) = move_files (move_file b j) js

abbrev pub is_available : (ℕ → Probe) → ℕ → Option Message → Bool
is_available probe now none = false
is_available probe now (some m) = available_to_hook probe m now

-- The files that the hook may take, in the order of their names.
unfoldable pub available_files : (ℕ → Probe) → ℕ → Box → List Text
unfolding sorted
available_files probe now b =
    keep (λ j. is_available probe now (get b.inbox j)) (sorted (keys b.inbox))

-- The records of the files.
unfoldable pub records_of : Box → List Text → List Message
records_of b [] = []
records_of b (j ∷ js) =
    let rest = records_of b js in elim (get b.inbox j) [ none ↦ rest | some m ↦ m ∷ rest ]

-- The end of the hook: where the stop is blocked, the files are moved.
unfoldable pub hand_over :
    Text → List Text → (Home → Home) → Home → Option Text → Home × Option Text
unfolding move_files
hand_over label files meanwhile h none = (h, none)
hand_over label files meanwhile h (some reason) =
    let h' = meanwhile h in
    (set_box h' label (move_files (box h' label) (take 5 files)), some reason)

unfoldable pub drain_unlocked :
    (ℕ → Probe) → ℕ → Text → Bool → (Home → Home) → Home → Home × Option Text
unfolding hand_over
drain_unlocked probe now label stop_hook_active meanwhile h =
    let files = available_files probe now (box h label) in
    hand_over label files meanwhile h
      (decide (records_of (box h label) files) stop_hook_active 5 label)

-- `lock_free` tells whether the label's send lock was free.
unfoldable pub drain :
    (ℕ → Probe) → ℕ → Text → Bool → Bool → (Home → Home) → Home → Home × Option Text
unfolding drain_unlocked hook_delivery_lock
drain probe now label lock_free stop_hook_active meanwhile h =
    if nonempty label && hook_delivery_lock h label lock_free
    then drain_unlocked probe now label stop_hook_active meanwhile h
    else (h, none)
