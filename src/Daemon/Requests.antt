-- ===== src/Daemon/Requests.antt =====
-- What requests do to the registry.
use teammate_mcp.Base.{
  if◌then◌else◌, Option-cases, is_some, ◌==◌, option_eq, nat_eq, text_eq, length, All, ◌≡◌, refl,
  ap, ◌≢◌, inl, inr, Bool, true, false, Option, none, some, List, [], ◌∷◌, arith,
}
use teammate_mcp.Base.Text.{Text, str, upper, strip, starts_with}
use teammate_mcp.Base.Dict.{get, keys, find_item, find_item-none}
use teammate_mcp.Registry
use teammate_mcp.Registry.{
  Transport, mailbox, Policy, idle, immediate, ChannelState, awaiting_handshake, ready, closed,
  Channel, Rec, rec_eq, no_rec, Registry, Extra, no_extra, RegistryError, belongs_to_mailbox,
  belongs_to_channel, belongs_to_session, thread_registered_as, Outcome, nonempty, is_mailbox,
  is_channel, or_else, rec_or_empty, same_owner, register_guard, same_pane, drop_collisions,
  new_rec, holds_thread, mailbox_rec, foreign, register_mailbox, is_dead, prune_registry,
}
use teammate_mcp.Registry.Consistent.{
  IsConsistent, register-IsConsistent, prune_registry-IsConsistent,
}
use teammate_mcp.Mailbox.{Home}
use teammate_mcp.Address
use teammate_mcp.Address.{prune_dead, dead_labels, archive_all}
use teammate_mcp.Address.Custody.{unregister-IsConsistent, registry-archive_all}
use teammate_mcp.Daemon.{
  Args, Line, late, closed_line, bad_json, request, unknown_op, labels, found, health, Response, ok,
  error, World, matches, op_lookup, registered_or, op_register, unregistered_or, op_unregister,
  op_prune, handle_client,
}

-- `extra` sets no session id and makes no mailbox; the other keys it may set.
abbrev pub IsPlain : Line → Type 0
IsPlain (request op a) = (a.extra.session_id ≡ none) × (a.extra.transport ≢ some (some mailbox))
IsPlain l = Unit

prune-IsConsistent :
    (h : Home) (w : World) → IsConsistent h.registry → IsConsistent (op_prune h w).1.registry
unfolding op_prune prune_dead
prune-IsConsistent h w c =
    rw registry-archive_all (prune_registry-IsConsistent w.alive w.now 60000 h.registry c)

op_register-IsConsistent :
    (h : Home) (w : World) (a : Args)
    → a.extra.session_id ≡ none
    → a.extra.transport ≢ some (some mailbox)
    → IsConsistent h.registry
    → IsConsistent (op_register h w a).1.registry
unfolding op_register
op_register-IsConsistent h w a x m c = elim (Option-cases a.label) [
  | inl e ↦ rw e c
  | inr (label, e) ↦ elim (Option-cases a.session_id) [
    | inl f ↦ rw (e, f) c
    | inr (sid, f) ↦
        rw (e, f)
          (go label sid
            (Registry.register h.registry label sid a.pid a.job a.cwd a.extra true w.now) refl)
  ]
]
  where
    go :
        (label sid : Text) (r : Outcome Registry)
        → Registry.register h.registry label sid a.pid a.job a.cwd a.extra true w.now ≡ r
        → IsConsistent (registered_or h label r).1.registry
    go label sid (Outcome.ok d) e =
        register-IsConsistent h.registry d label sid a.pid a.job a.cwd a.extra w.now c e x m
    go label sid (Outcome.err x) e = c

op_unregister-IsConsistent :
    (h : Home) (w : World) (a : Args)
    → IsConsistent h.registry
    → IsConsistent (op_unregister h w a).1.registry
unfolding op_unregister
op_unregister-IsConsistent h w a c = elim (Option-cases a.label) [
  | inl e ↦ rw e c
  | inr (label, e) ↦ rw e (go label (Address.unregister h label (w.renames label)) refl)
]
  where
    go :
        (label : Text) (r : Option Home)
        → Address.unregister h label (w.renames label) ≡ r
        → IsConsistent (unregistered_or h label r).1.registry
    go label (some h') e = unregister-IsConsistent h h' label (w.renames label) c e
    go label none e = c

-- A property of both branches is one of the test.
either :
    (P : Response × Home → Type 0) (b : Bool) (x y : Response × Home)
    → P x
    → P y
    → P (if b then x else y)
either P true x y p q = p
either P false x y p q = q

-- What holds of every operation's answer holds of the answer to a request.
by_op :
    (P : Response × Home → Type 0) (h : Home) (w : World) (op : Text) (a : Args)
    → P (op_register h w a)
    → P (op_unregister h w a)
    → ((r : Response) → P (r, h))
    → P (op_prune h w)
    → P (handle_client h w (request op a))
unfolding handle_client
by_op P h w op a p u same q = either P (op == str "register") (op_register h w a) _ p (
    either P (op == str "unregister") (op_unregister h w a) _ u (
      either P (op == str "list") (ok (labels h.registry), h) _ (same _)
        (either P (op == str "lookup") (ok (found (op_lookup h.registry a.target)), h) _ (same _)
          (either P (op == str "prune") (op_prune h w) _ q (
            either P (op == str "health") (ok (health (length (keys h.registry))), h)
              (error unknown_op, h) (same _) (same _))))))

abbrev pub is_error : Response → Bool
is_error (error p) = true
is_error _ = false

-- A refused request has changed nothing.
abbrev IsAtomic : Home → Response × Home → Type 0
IsAtomic h (r, h') = is_error r ≡ true → h' ≡ h

registered_or-IsAtomic :
    (h : Home) (label : Text) (r : Outcome Registry) → IsAtomic h (registered_or h label r)
registered_or-IsAtomic h label (Outcome.ok d) e = cc
registered_or-IsAtomic h label (Outcome.err x) e = refl

op_register-IsAtomic : (h : Home) (w : World) (a : Args) → IsAtomic h (op_register h w a)
unfolding op_register
op_register-IsAtomic h w a = elim (Option-cases a.label) [
  | inl e ↦ rw e (λ x. refl)
  | inr (label, e) ↦ elim (Option-cases a.session_id) [
    | inl f ↦ rw (e, f) (λ x. refl)
    | inr (sid, f) ↦ rw (e, f) (registered_or-IsAtomic h label _)
  ]
]

unregistered_or-IsAtomic :
    (h : Home) (label : Text) (r : Option Home) → IsAtomic h (unregistered_or h label r)
unregistered_or-IsAtomic h label (some h') e = cc
unregistered_or-IsAtomic h label none e = refl

op_unregister-IsAtomic : (h : Home) (w : World) (a : Args) → IsAtomic h (op_unregister h w a)
unfolding op_unregister
op_unregister-IsAtomic h w a = elim (Option-cases a.label) [
  | inl e ↦ rw e (λ x. refl)
  | inr (label, e) ↦ rw e (unregistered_or-IsAtomic h label _)
]

op_prune-IsAtomic : (h : Home) (w : World) → IsAtomic h (op_prune h w)
unfolding op_prune
op_prune-IsAtomic h w e = cc

-- A request that is answered with an error has changed nothing on disk.
pub handle_client_atomic :
    (h : Home) (w : World) (l : Line)
    → is_error (handle_client h w l).0 ≡ true
    → (handle_client h w l).1 ≡ h
unfolding handle_client
handle_client_atomic h w late = λ e. refl
handle_client_atomic h w closed_line = λ e. refl
handle_client_atomic h w bad_json = λ e. refl
handle_client_atomic h w (request op a) =
    by_op (IsAtomic h) h w op a (op_register-IsAtomic h w a) (op_unregister-IsAtomic h w a)
      (λ r e. refl) (op_prune-IsAtomic h w)

abbrev KeepsRegistry : Response × Home → Type 0
KeepsRegistry (r, h) = IsConsistent h.registry

-- A request keeps the registry consistent, whatever it is and whether it is answered or refused.
pub handle_client-IsConsistent :
    (h : Home) (w : World) (l : Line)
    → IsPlain l
    → IsConsistent h.registry
    → IsConsistent (handle_client h w l).1.registry
unfolding handle_client
handle_client-IsConsistent h w late m c = c
handle_client-IsConsistent h w closed_line m c = c
handle_client-IsConsistent h w bad_json m c = c
handle_client-IsConsistent h w (request op a) m c =
    by_op KeepsRegistry h w op a (op_register-IsConsistent h w a m.0 m.1 c)
      (op_unregister-IsConsistent h w a c) (λ r. c) (prune-IsConsistent h w c)

-- Requests in order, each in its own circumstances.
unfoldable pub serve : Home → List (World × Line) → Home
serve h [] = h
serve h ((w, l) ∷ rest) = serve (handle_client h w l).1 rest

-- Whatever requests the clients send, as long as the `extra` of each of them sets no session id and
-- no mailbox transport, a registry in which no pane has two labels, and no thread two mailboxes,
-- stays so.
pub serve-IsConsistent :
    (h : Home) (requests : List (World × Line))
    → All (λ wl. IsPlain wl.1) requests
    → IsConsistent h.registry
    → IsConsistent (serve h requests).registry
unfolding serve
serve-IsConsistent h [] ps c = c
serve-IsConsistent h ((w, l) ∷ rest) (p, ps) c =
    serve-IsConsistent (handle_client h w l).1 rest ps (handle_client-IsConsistent h w l p c)

starts_with_nil : (s : Text) → starts_with s [] ≡ true
unfolding starts_with
starts_with_nil [] = refl
starts_with_nil (c ∷ s) = refl

upper_nil : upper [] ≡ []
unfolding upper
upper_nil = refl

matches_paneless : (target l : Text) (r : Rec) → r.session_id ≡ [] → matches target l r ≡ true
matches_paneless target l r e = ground (arith, starts_with_nil target, ap upper e, upper_nil)

-- Once a pane-free address is registered, a look-up of any target that is not blank finds a
-- record: also a target that names no label and no pane.
pub op_lookup_paneless :
    (d : Registry) (target j : Text) (r : Rec)
    → get d j ≡ some r
    → r.session_id ≡ []
    → nonempty (strip target) ≡ true
    → is_some (op_lookup d target) ≡ true
unfolding op_lookup
op_lookup_paneless d target j r g e n = elim (Option-cases (get d (strip target))) [
  | inr (s, f) ↦ ground (arith, f, n)
  | inl f ↦ elim (Option-cases (find_item (matches (upper (strip target))) d)) [
    | inr (x, k) ↦ ground (arith, f, k, n)
    | inl k ↦
        absurd (cc (find_item-none _ d j r k g, matches_paneless (upper (strip target)) j r e))
  ]
]
