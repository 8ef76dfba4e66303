-- ===== src/DeviceMonitor/Tests.antt =====
-- Runs of the object `DeviceMonitor` on small inputs, with a small JSON library: a known message parses
-- to a document, a missing member is null, and members of anything else but an object throw.
use devscan.Base.{
  ℕ, ◌≡◌, ◌≢◌, refl, true, false, ◌⊎◌, none, some, List, [], ◌∷◌, ◌++◌, arith, if◌then◌else◌, ltb,
}
use devscan.Base.Text.{Text, codes, text_eq, find_first}
use devscan.Result.{Result, ok, throw, std_exception}
use devscan.Json.{JsonLibrary}
use devscan.DeviceMonitor.Announcement.{
  Announcement, accepted, inspect, sending_name, uuid_of, inspect_document, inspect_params,
  inspect_uuid, inspect_expiration, tag_announce, tag_device, tag_expiration, tag_interface,
  tag_method, tag_name, tag_net_settings, tag_params, tag_uuid,
}
use devscan.DeviceMonitor.CommunicationPath.{CommunicationPath, key_of, HasNoColon}
use devscan.DeviceMonitor.Table.{lookup, put, IsTable}
use devscan.DeviceMonitor.State.{
  Call, announce, expire, ExpiringEntry, DeviceMonitor, empty, set_announce_cb,
}
use devscan.DeviceMonitor.Process.{
  path_of, expiry, process_received_announcement, check_for_expired_announcements,
}
use devscan.DeviceMonitor.Acceptance.{entry_of, lookup-process}
use devscan.DeviceMonitor.Notices.{told, is_news, calls-process}
use devscan.DeviceMonitor.Refusal.{Reported, process-Reported}
use devscan.DeviceMonitor.Expirations.{
  Elem, IsLate, check_for_expired-reports, check_for_expired-IsLate, check_for_expired-misses,
}
use devscan.DeviceMonitor.History.{Event, received, timer, run, spec_run}
use devscan.DeviceMonitor.Registry.{run-spec}
use devscan.DeviceMonitor.Genuine.{IsGenuine, run-IsGenuine}
use devscan.DeviceMonitor.Replay.{set_announce_cb-tells}

pub data Node : Type 0 where
  null : Node
  text : Text → Node
  number : ℕ → Node
  object : (Text → Node) → Node

abbrev pub field : Text → Node → (Text → Node) → Text → Node
field name node others key = if text_eq name key then node else others key

abbrev pub nothing : Text → Node
nothing key = null

abbrev pub member_of : Node → Text → Result Node
member_of null key = ok null
member_of (object members) key = ok (members key)
member_of _ key = throw std_exception

abbrev pub string_of : Node → Result Text
string_of null = ok []
string_of (text t) = ok t
string_of _ = throw std_exception

abbrev pub uint_of : Node → Result ℕ
uint_of null = ok 0
uint_of (number n) = ok n
uint_of _ = throw std_exception

abbrev pub indexed : Node → Result Node → Result (Node × Node)
indexed document (ok node) = ok (document, node)
indexed document (throw e) = throw e

abbrev pub hello : Text
hello = codes "hello"

abbrev pub document : Node
document = object (
    field tag_method (text tag_announce) (
      field tag_params
        (object (
          field tag_net_settings
            (object
              (field tag_interface (object (field tag_name (text (codes "eth1")) nothing)) nothing))
            (field tag_device (object (field tag_uuid (text (codes "0009E5")) nothing))
              (field tag_expiration (number 15) nothing))))
        nothing))

abbrev pub json : JsonLibrary
json = record {
  Value = Node;
  parse = λ t. if text_eq t hello then ok (some document) else ok none;
  index = λ v key. indexed v (member_of v key);
  member = member_of;
  is_member = λ v key. ok true;
  as_string = string_of;
  as_uint = uint_of;
}

abbrev pub said : Announcement
said = record { sending_interface = codes "eth1"; uuid = codes "0009E5"; router = []; expire = 15 }

abbrev eth0 : Text
eth0 = codes "eth0"

abbrev path : CommunicationPath
path = path_of eth0 said

-- The name of an alias interface.
abbrev alias_path : CommunicationPath
alias_path = path_of (codes "eth0:1") said

abbrev returning : Call → Result (Unit {0})
returning call = ok tt

abbrev throwing : Call → Result (Unit {0})
throwing call = throw std_exception

abbrev listening : DeviceMonitor
listening = record empty {
  announce_cb = some returning;
  expire_cb = some returning;
  error_cb = some returning;
}

-- The path is known, and expires at 20.
abbrev knowing : DeviceMonitor
knowing = record listening {
  announcements = put (key_of path) (record { announcement = hello; time_of_expiry = 20 }) [];
}

pub hello-accepted : inspect json hello ≡ ok (accepted said)
unfolding inspect inspect_document inspect_params inspect_uuid inspect_expiration sending_name
    uuid_of
hello-accepted = refl

path-HasNoColon : HasNoColon path
unfolding find_first
path-HasNoColon = record {
  receiving_interface = refl;
  sending_interface = refl;
  uuid = refl;
  router = refl;
}

knowing-IsTable : IsTable knowing.announcements
unfolding put lookup
knowing-IsTable = (refl, tt)

path-known :
    lookup (key_of path) knowing.announcements
    ≡ some (record { announcement = hello; time_of_expiry = 20 })
unfolding put lookup key_of
path-known = refl

-- A message, the same message later, and a timer event after the expiry of the first one.
abbrev events : List Event
events = received 1 eth0 hello ∷ received 5000000000 eth0 hello ∷ timer true 15000000002 ∷ []

abbrev entry_1 : ExpiringEntry
entry_1 = entry_of 1 hello said

refused-rest : (a : Announcement) → inspect json (codes "rest") ≢ ok (accepted a)
unfolding inspect
refused-rest a h = cc

hello-news : is_news hello (lookup (key_of path) listening.announcements) ≡ true
unfolding lookup
hello-news = refl

alias-no_path : ¬ HasNoColon alias_path
unfolding find_first
alias-no_path h = let e = h.receiving_interface in cc

-- The path of an alias interface is known besides, and expires at 20.
abbrev alias_knowing : DeviceMonitor
alias_knowing = record listening {
  announcements =
      (key_of alias_path, record { announcement = hello; time_of_expiry = 20 })
      ∷ knowing.announcements;
}

check_for_expired-reports_call :
    Elem (expire path) (check_for_expired_announcements 21 knowing).calls
check_for_expired-reports_call =
    check_for_expired-reports 21 knowing returning path
      (record { announcement = hello; time_of_expiry = 20 }) refl path-HasNoColon path-known
      (omega arith)

path-told : Elem (announce path hello) (set_announce_cb (some returning) knowing).calls
path-told =
    set_announce_cb-tells returning knowing path
      (record { announcement = hello; time_of_expiry = 20 }) path-HasNoColon path-known

-- The second message has put the expiry off beyond the timer event.
run-alive : ltb (expiry 5000000000 said) 15000000002 ≡ false
run-alive = refl

run-spec_example :
    lookup (key_of path) (run json events empty).announcements
    ≡ spec_run json events (λ k. lookup k empty.announcements) (key_of path)
run-spec_example = run-spec json events empty (key_of path) tt

lookup-process_example :
    lookup (key_of path) (process_received_announcement json 1 eth0 hello listening).announcements
    ≡ (if text_eq (key_of path) (key_of path)
        then some entry_1
        else lookup (key_of path) listening.announcements)
lookup-process_example =
    lookup-process json 1 eth0 hello said listening hello-accepted (key_of path)

process-Reported_example :
    (code : ℕ) × (user_message : Text) × Reported listening
      (codes "rest")
      (process_received_announcement json 1 eth0 (codes "rest") listening)
      code
      user_message
process-Reported_example = process-Reported json 1 eth0 (codes "rest") listening refused-rest

calls-process_example : (process_received_announcement json 1 eth0 hello listening).calls ≡ (
    if is_news hello (lookup (key_of path) listening.announcements)
    then listening.calls ++ told listening.announce_cb (announce path hello)
    else listening.calls)
calls-process_example = calls-process json 1 eth0 hello said listening hello-accepted refl

run-IsGenuine_example : IsGenuine json (received 1 eth0 hello ∷ []) (key_of path) entry_1
unfolding run process_received_announcement key_of
run-IsGenuine_example =
    run-IsGenuine json (received 1 eth0 hello ∷ []) (key_of path) entry_1
      (lookup-process json 1 eth0 hello said empty hello-accepted (key_of path))

check_for_expired-reports_example :
    Elem (expire path) (check_for_expired_announcements 21 knowing).calls
check_for_expired-reports_example =
    check_for_expired-reports 21 knowing returning path
      (record { announcement = hello; time_of_expiry = 20 }) refl path-HasNoColon path-known
      (omega arith)

check_for_expired-IsLate_example :
    Elem (expire path) knowing.calls ⊎ IsLate 21 knowing.announcements (expire path)
check_for_expired-IsLate_example =
    check_for_expired-IsLate 21 knowing (expire path) knowing-IsTable check_for_expired-reports_call

check_for_expired-misses_example :
    check_for_expired_announcements 21 alias_knowing
    ≡ check_for_expired_announcements 21
        (record alias_knowing { announcements = knowing.announcements })
check_for_expired-misses_example =
    check_for_expired-misses 21 alias_knowing alias_path
      (record { announcement = hello; time_of_expiry = 20 }) [] knowing.announcements refl
      alias-no_path (omega arith)

set_announce_cb-tells_example :
    Elem (announce path hello) (set_announce_cb (some returning) knowing).calls
set_announce_cb-tells_example =
    set_announce_cb-tells returning knowing path
      (record { announcement = hello; time_of_expiry = 20 }) path-HasNoColon path-known
