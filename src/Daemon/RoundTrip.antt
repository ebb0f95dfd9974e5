-- ===== src/Daemon/RoundTrip.antt =====
-- src/teammate_mcp/daemon.py: a `lookup` after a `register`.
use teammate_mcp.Base.{option_eq, nat_eq, text_eq, ◌≡◌, refl, ap, ◌∙◌, true, some, arith}
use teammate_mcp.Base.Text.{Text, str, strip}
use teammate_mcp.Base.Dict.{get, NodupKeys}
use teammate_mcp.Registry
use teammate_mcp.Registry.{
  Transport, mailbox, claude_channel, Policy, idle, immediate, ChannelState, awaiting_handshake,
  ready, closed, Channel, Rec, rec_eq, no_rec, Registry, Extra, no_extra, RegistryError,
  belongs_to_mailbox, belongs_to_channel, belongs_to_session, thread_registered_as, Outcome, ok,
  err, nonempty, is_mailbox, is_channel, or_else, rec_or_empty, same_owner, register_guard,
  same_pane, drop_collisions, new_rec, register, holds_thread, mailbox_rec, foreign,
  register_mailbox, is_dead, prune_registry,
}
use teammate_mcp.Registry.Update.{written, get-register_written}
use teammate_mcp.Mailbox.{Home}
use teammate_mcp.Daemon.{
  Args, request, registered, found, ok, World, op_lookup, registered_or, op_register, handle_client,
}

register_request :
    (h : Home) (w : World) (a : Args)
    → handle_client h w (request (str "register") a) ≡ op_register h w a
unfolding handle_client text_eq
register_request h w a = refl

lookup_request :
    (h : Home) (w : World) (a : Args)
    → handle_client h w (request (str "lookup") a) ≡ (ok (found (op_lookup h.registry a.target)), h)
unfolding handle_client text_eq
lookup_request h w a = refl

op_lookup_label :
    (d : Registry) (target : Text) (r : Rec)
    → nonempty (strip target) ≡ true
    → get d (strip target) ≡ some r
    → op_lookup d target ≡ some r
unfolding op_lookup
op_lookup_label d target r n g = rw (n, g) refl

module _ (h : Home) (w : World) (a : Args) (label sid : Text) where
  abbrev pub new_record : Rec
  new_record = written h.registry label sid a.pid a.job a.cwd a.extra true w.now

  registered_answer :
      a.label ≡ some label
      → a.session_id ≡ some sid
      → NodupKeys h.registry
      → (op_register h w a).0 ≡ ok (registered label)
      → get (op_register h w a).1.registry label ≡ some new_record
  unfolding op_register
  registered_answer l s n =
      rw (l, s)
        (go (Registry.register h.registry label sid a.pid a.job a.cwd a.extra true w.now) refl)
    where
      go :
          (o : Outcome Registry)
          → Registry.register h.registry label sid a.pid a.job a.cwd a.extra true w.now ≡ o
          → (registered_or h label o).0 ≡ ok (registered label)
          → get (registered_or h label o).1.registry label ≡ some new_record
      go (Outcome.ok d) e _ = ground (
        arith,
        get-register_written h.registry label sid a.pid a.job a.cwd a.extra true w.now d label n e,
      )
      go (Outcome.err x) e q = absurd (cc q)

  -- Where the daemon answers a `register` request with `registered`, and no label stands twice in
  -- the registry, every `lookup` of that label that comes next, with white space around it or
  -- none, is answered with exactly the record that `register` made from the request, and changes
  -- nothing.
  pub register-lookup :
      (w' : World) (b : Args)
      → a.label ≡ some label
      → a.session_id ≡ some sid
      → nonempty label ≡ true
      → strip b.target ≡ label
      → NodupKeys h.registry
      → (handle_client h w (request (str "register") a)).0 ≡ ok (registered label)
      → handle_client
          (handle_client h w (request (str "register") a)).1
          w'
          (request (str "lookup") b)
        ≡ (ok (found (some new_record)), (handle_client h w (request (str "register") a)).1)
  register-lookup w' b l s n t k = rw (register_request h w a) (λ ans.
      let h' = (op_register h w a).1 in
      lookup_request h' w' b
      ∙ ap (λ o. (ok (found o), h'))
          (op_lookup_label h'.registry b.target new_record (rw t n)
            (rw t (registered_answer l s k ans))))
