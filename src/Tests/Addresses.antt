-- ===== src/Tests/Addresses.antt =====
-- Labels: the registry, its daemon, automatic names and callers.
use teammate_mcp.Base.{
  is_some, option_eq, nat_eq, text_eq, ◌≡◌, refl, ◌≢◌, ◌⊎◌, true, ◌||◌, none, some, List, [], ◌∷◌,
}
use teammate_mcp.Base.Text.{Text, str, upper, lstrip, strip}
use teammate_mcp.Base.Dict.{get, put, pop, keep_items, find_item}
use teammate_mcp.Registry
use teammate_mcp.Registry.{
  register, Transport, mailbox, Policy, idle, immediate, ChannelState, awaiting_handshake, ready,
  closed, Channel, Rec, rec_eq, no_rec, Registry, Extra, no_extra, RegistryError,
  belongs_to_mailbox, belongs_to_channel, belongs_to_session, thread_registered_as, Outcome,
  nonempty, is_mailbox, is_channel, or_else, given, rec_or_empty, same_owner, register_guard,
  same_pane, drop_collisions, new_rec, holds_thread, mailbox_rec, foreign, is_dead, prune_registry,
}
use teammate_mcp.Registry.Update.{IsRecord, survivor, get-register, register-respects_owner}
use teammate_mcp.Registry.Consistent.{IsConsistent}
use teammate_mcp.Mailbox.{Home, archive_label_mailbox}
use teammate_mcp.Address
use teammate_mcp.Labels.{Caller, caller_label}
use teammate_mcp.Labels.Callers.{caller_label_isolated}
use teammate_mcp.Daemon.{
  ok, found, registered, Args, Line, request, World, op_lookup, op_register, handle_client,
}
use teammate_mcp.Daemon.RoundTrip.{new_record, register-lookup}
use teammate_mcp.Daemon.Requests.{is_error, serve, serve-IsConsistent, op_lookup_paneless}
use teammate_mcp.Tests.Data.{
  registry_nodup, pane_rec, mail_rec, pane_label, mail_label, registry, mail_box, home,
}

-- The pane takes a new label, and its old one is dropped.
abbrev renamed : Registry
renamed =
    (mail_label, mail_rec)
    ∷ (
      str "boss",
      record no_rec {
        label = str "boss";
        session_id = str "AB-12";
        pid = 9;
        job = str "claude";
        registered_at = 5000;
      },
    )
    ∷ []

renames_pane :
    Registry.register registry (str "boss") (str "AB-12") 9 (str "claude") none no_extra true 5000
    ≡ Outcome.ok renamed
unfolding Registry.register drop_collisions new_rec register_guard get put keep_items upper
renames_pane = refl

get-register_example :
    ((r : Rec) × (get renamed (str "boss") ≡ some r)
      × IsRecord
          (rec_or_empty (get registry (str "boss")))
          (str "boss")
          (str "AB-12")
          9
          (str "claude")
          none
          no_extra
          5000
          r)
    × ((j : Text)
        → str "boss" ≢ j
        → get renamed j ≡ survivor (str "boss") (str "AB-12") true j (get registry j))
get-register_example =
    get-register registry (str "boss") (str "AB-12") 9 (str "claude") none no_extra true 5000
      renamed registry_nodup renames_pane

-- A native channel in a pane, and its owner from another pane.
abbrev channel_rec : Rec
channel_rec = record pane_rec {
  transport = some Transport.claude_channel;
  claude_owner = some (str "o1");
}

abbrev channels : Registry
channels = (pane_label, channel_rec) ∷ []

abbrev by_owner : Extra
by_owner = record no_extra { claude_owner = some (some (str "o1")) }

abbrev owned : Registry
owned =
    (
      pane_label,
      record no_rec {
        label = pane_label;
        session_id = str "CD-34";
        pid = 9;
        job = str "claude";
        claude_owner = some (str "o1");
        registered_at = 5000;
      },
    )
    ∷ []

owner_registers :
    Registry.register channels pane_label (str "CD-34") 9 (str "claude") none by_owner true 5000
    ≡ Outcome.ok owned
unfolding Registry.register drop_collisions new_rec register_guard get put keep_items upper
    option_eq
owner_registers = refl

register-respects_owner_example :
    (channel_rec.transport ≢ some mailbox)
    × ((is_channel channel_rec.transport || is_some channel_rec.channel) ≡ true
        → ((channel_rec.session_id ≡ str "CD-34") × (nonempty (str "CD-34") ≡ true))
          ⊎ ((owner : Text) × (channel_rec.claude_owner ≡ some owner)
              × (given by_owner.claude_owner ≡ some owner)
              × (nonempty owner ≡ true)))
unfolding get
register-respects_owner_example =
    register-respects_owner channels pane_label (str "CD-34") 9 (str "claude") none by_owner true
      5000 owned channel_rec (refl, tt) refl owner_registers

claims_again :
    Registry.register_mailbox registry mail_label (str "t1") (str "/x") 6000
    ≡ Outcome.ok (
        (pane_label, pane_rec)
        ∷ (mail_label, record mail_rec { cwd = some (str "/x"); registered_at = 6000 })
        ∷ [])
unfolding Registry.register_mailbox find_item mailbox_rec get put option_eq
claims_again = refl

abbrev reclaimed : Registry
reclaimed =
    (pane_label, pane_rec)
    ∷ (mail_label, record mail_rec { cwd = some (str "/x"); registered_at = 6000 })
    ∷ []

-- A pane's label is not free for a mailbox.
claim_refused :
    Registry.register_mailbox registry pane_label (str "t2") (str "/x") 6000
    ≡ Outcome.err belongs_to_session
unfolding Registry.register_mailbox find_item mailbox_rec get put option_eq
claim_refused = refl

abbrev released : Home
released = record {
  registry = (pane_label, pane_rec) ∷ [];
  boxes = [];
  archived = (mail_label, mail_box) ∷ [];
}

releases : Address.unregister home mail_label true ≡ some released
unfolding Address.unregister get pop archive_label_mailbox
releases = refl

abbrev caller : Caller
caller = record {
  request_thread = some (str "t1");
  environment_thread = [];
  label = [];
  session_tail = [];
}

abbrev misled : Caller
misled = record caller { label = pane_label; session_tail = str "ab-12" }

caller_label_isolated_example : caller_label registry caller ≡ caller_label registry misled
caller_label_isolated_example =
    caller_label_isolated registry caller misled (str "t1") refl refl refl

finds_mail : get registry mail_label ≡ some mail_rec
unfolding get text_eq nat_eq
finds_mail = refl

op_lookup_paneless_example : is_some (op_lookup registry (str "nobody")) ≡ true
unfolding strip lstrip
op_lookup_paneless_example =
    op_lookup_paneless registry (str "nobody") mail_label mail_rec finds_mail refl refl

abbrev world : World
world = record { now = 9000; alive = []; renames = λ l. true }

abbrev args : Args
args = record {
  label = some (str "boss");
  session_id = some (str "CD-34");
  pid = 8;
  job = str "claude";
  cwd = none;
  extra = no_extra;
  target = [];
}

-- A request to `register` without a label.
abbrev unnamed : Line
unnamed = request (str "register") (record args { label = none })

fails_unnamed : is_error (handle_client home world unnamed).0 ≡ true
unfolding handle_client op_register text_eq nat_eq
fails_unnamed = refl

abbrev fresh_home : Home
fresh_home = record { registry = []; boxes = []; archived = [] }

no_records : IsConsistent []
unfolding get
no_records = record {
  nodup = tt;
  panes = λ j k r s e f g. absurd (cc e);
  threads = λ j k r s e f g i. absurd (cc e);
}

abbrev requests : List (World × Line)
requests = (world, request (str "register") args) ∷ (world, request (str "unregister") args) ∷ []

serve-IsConsistent_example : IsConsistent (serve fresh_home requests).registry
serve-IsConsistent_example =
    serve-IsConsistent fresh_home requests ((refl, λ e. cc), ((refl, λ e. cc), tt)) no_records

-- A look-up with white space around the label.
abbrev wanted : Args
wanted = record args { label = none; target = str " boss " }

register_answers :
    (handle_client home world (request (str "register") args)).0 ≡ ok (registered (str "boss"))
unfolding handle_client op_register register get put text_eq nat_eq option_eq register_guard
register_answers = refl

register-lookup_example :
    handle_client
      (handle_client home world (request (str "register") args)).1
      world
      (request (str "lookup") wanted)
    ≡ (
      ok (found (some (new_record home world args (str "boss") (str "CD-34")))),
      (handle_client home world (request (str "register") args)).1,
    )
unfolding strip
register-lookup_example =
    register-lookup home world args (str "boss") (str "CD-34") world wanted refl refl refl refl
      registry_nodup register_answers
