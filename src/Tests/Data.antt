-- ===== src/Tests/Data.antt =====
-- A registry with a pane and a mailbox, and a message for the mailbox.
use teammate_mcp.Base.{
  refl, if◌then◌else◌, ◌==◌, option_eq, nat_eq, text_eq, ℕ, true, some, [], ◌∷◌,
}
use teammate_mcp.Base.Text.{Text, str}
use teammate_mcp.Base.Dict.{get, NodupKeys}
use teammate_mcp.Registry.{mailbox, Rec, rec_eq, no_rec, Registry}
use teammate_mcp.Mailbox.{Message, bare, Box, empty_box, Home}
use teammate_mcp.Lease.{Probe, alive, missing}

abbrev pub pane_rec : Rec
pane_rec = record no_rec {
  label = str "claude1";
  session_id = str "ab-12";
  pid = 7;
  job = str "claude";
  registered_at = 1000;
}

abbrev pub mail_rec : Rec
mail_rec = record no_rec {
  label = str "codex-t1";
  transport = some mailbox;
  thread_id = some (str "t1");
  job = str "codex";
  cwd = some (str "/w");
  auto_delivery = some true;
  registered_at = 1000;
}

abbrev pub pane_label : Text
pane_label = str "claude1"

abbrev pub mail_label : Text
mail_label = str "codex-t1"

abbrev pub registry : Registry
registry = (pane_label, pane_rec) ∷ (mail_label, mail_rec) ∷ []

abbrev pub job : Text
job = str "j1"

abbrev pub mail : Message
mail = record (bare job) {
  from_ = some pane_label;
  to = mail_label;
  body = str "hi";
  created_at = some 2000;
  recipient_thread_id = some (str "t1");
}

abbrev pub mail_box : Box
mail_box = record empty_box { inbox = (job, mail) ∷ []; history = (job, mail) ∷ [] }

abbrev pub home : Home
home = record { registry = registry; boxes = (mail_label, mail_box) ∷ []; archived = [] }

-- Process 7 runs, and no other.
abbrev pub probe : ℕ → Probe
probe pid = if pid == 7 then alive else missing

pub registry_nodup : NodupKeys registry
unfolding get
registry_nodup = (refl, (refl, tt))
