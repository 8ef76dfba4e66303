-- ===== src/Receiver/Netlink.antt =====
-- `processNetlinkTelegram`, `start` and the events of hbm/communication/linux/netlink.cpp. A telegram is
-- the list of its messages, with the attributes that the source looks at.
use devscan.Base.{
  ℕ, ◌==◌, ◌≡◌, refl, Bool, true, false, List, [], ◌∷◌, ◌++◌, length, All, if◌then◌else◌,
}
use devscan.Base.Text.{Text}
use devscan.Result.{Result, ok, throw}
use devscan.Adapters.Netadapter.{Netadapter, Ipv4Address}
use devscan.Adapters.Enumeration.{Adapters, get_adapter_by_interface_index}

-- `event_t`
pub data NetlinkEvent : Type 0 where
  new del complete : NetlinkEvent

-- A call of the event handler.
pub record Notice : Type 0 where
  pub event : NetlinkEvent
  pub adapter_index : ℕ
  pub ipv4_address : Text

pub data NetlinkMessage : Type 0 where
  nlmsg_done nlmsg_error : NetlinkMessage
  -- whether the family is AF_INET, the index of the interface, the attributes IFA_LOCAL
  rtm_newaddr rtm_deladdr : Bool → ℕ → List Text → NetlinkMessage
  other_nlmsg : NetlinkMessage

abbrev is_single : List Ipv4Address → Bool
is_single addresses = length addresses == 1

abbrev is_none : List Ipv4Address → Bool
is_none addresses = length addresses == 0

-- What the loop over the attributes reports, if the addresses that the adapter has pass the test. An
-- unknown adapter is passed over.
abbrev pub report : (List Ipv4Address → Bool) → Bool → ℕ → Text → Result Netadapter → List Notice
report test has_handler index address (throw e) = []
report test has_handler index address (ok adapter) =
    if test adapter.ipv4_addresses
    then (if has_handler
        then record { event = new; adapter_index = index; ipv4_address = address } ∷ []
        else [])
    else []

unfoldable pub report_all :
    (List Ipv4Address → Bool) → Bool → ℕ → List Text → Adapters → List Notice
report_all test has_handler index [] adapters = []
report_all test has_handler index (address ∷ rest) adapters =
    report test has_handler index address (get_adapter_by_interface_index index adapters)
    ++ report_all test has_handler index rest adapters

-- The switch over the type of a message, behind the update of the adapters.
unfoldable pub notices_of : Bool → NetlinkMessage → Adapters → List Notice
unfolding report_all
notices_of has_handler (rtm_newaddr true index addresses) adapters =
    report_all is_single has_handler index addresses adapters
notices_of has_handler (rtm_deladdr true index addresses) adapters =
    report_all is_none has_handler index addresses adapters
notices_of has_handler _ adapters = []

-- The host, whose adapters may have changed at each update.
module _ (Host : Type 0) (update : Host → Adapters × Host) where
  unfoldable pub process_netlink_telegram : Bool → List NetlinkMessage → Host → List Notice × Host
  unfolding notices_of
  process_netlink_telegram has_handler [] host = ([], host)
  process_netlink_telegram has_handler (nlmsg_done ∷ rest) host = ([], host)
  process_netlink_telegram has_handler (nlmsg_error ∷ rest) host = ([], host)
  process_netlink_telegram has_handler (message ∷ rest) host =
      let (adapters, host') = update host in
      let (notices, last) = process_netlink_telegram has_handler rest host' in
      (notices_of has_handler message adapters ++ notices, last)

-- The call that `start` makes.
unfoldable pub start_notices : Bool → List Notice
start_notices has_handler =
    if has_handler
    then record { event = complete; adapter_index = 0; ipv4_address = [] } ∷ []
    else []

abbrev pub IsNew : Notice → Type 0
IsNew n = n.event ≡ new

All-append : (xs ys : List Notice) → All IsNew xs → All IsNew ys → All IsNew (xs ++ ys)
All-append [] ys h k = k
All-append (x ∷ xs) ys h k = (h.0, All-append xs ys h.1 k)

report-IsNew :
    (test : List Ipv4Address → Bool) (has_handler : Bool) (index : ℕ) (address : Text)
    (r : Result Netadapter)
    → All IsNew (report test has_handler index address r)
report-IsNew test has_handler index address (throw e) = tt
report-IsNew test true index address (ok a) = if_IsNew (test a.ipv4_addresses)
  where
    if_IsNew :
        (b : Bool)
        → All IsNew (
            if b
            then record { event = new; adapter_index = index; ipv4_address = address } ∷ []
            else [])
    if_IsNew true = (refl, tt)
    if_IsNew false = tt
report-IsNew test false index address (ok a) = if_nil (test a.ipv4_addresses)
  where
    if_nil : (b : Bool) → All IsNew (if b then [] else [])
    if_nil true = tt
    if_nil false = tt

report_all-IsNew :
    (test : List Ipv4Address → Bool) (has_handler : Bool) (index : ℕ) (addresses : List Text)
    (adapters : Adapters)
    → All IsNew (report_all test has_handler index addresses adapters)
unfolding report_all
report_all-IsNew test has_handler index [] adapters = tt
report_all-IsNew test has_handler index (address ∷ rest) adapters =
    All-append _ _
      (report-IsNew test has_handler index address (get_adapter_by_interface_index index adapters))
      (report_all-IsNew test has_handler index rest adapters)

notices_of-IsNew :
    (has_handler : Bool) (message : NetlinkMessage) (adapters : Adapters)
    → All IsNew (notices_of has_handler message adapters)
unfolding notices_of
notices_of-IsNew has_handler (rtm_newaddr true index addresses) adapters =
    report_all-IsNew is_single has_handler index addresses adapters
notices_of-IsNew has_handler (rtm_deladdr true index addresses) adapters =
    report_all-IsNew is_none has_handler index addresses adapters
notices_of-IsNew has_handler (rtm_newaddr false index addresses) adapters = tt
notices_of-IsNew has_handler (rtm_deladdr false index addresses) adapters = tt
notices_of-IsNew has_handler nlmsg_done adapters = tt
notices_of-IsNew has_handler nlmsg_error adapters = tt
notices_of-IsNew has_handler other_nlmsg adapters = tt

module _ (Host : Type 0) (update : Host → Adapters × Host) where
  -- No telegram is reported as the loss of an address, not even one that says that the last address of
  -- an interface is gone: every call of the handler is of the event NEW.
  pub process_netlink_telegram-IsNew :
      (has_handler : Bool) (messages : List NetlinkMessage) (host : Host)
      → All IsNew (process_netlink_telegram Host update has_handler messages host).0
  unfolding process_netlink_telegram
  process_netlink_telegram-IsNew has_handler [] host = tt
  process_netlink_telegram-IsNew has_handler (nlmsg_done ∷ rest) host = tt
  process_netlink_telegram-IsNew has_handler (nlmsg_error ∷ rest) host = tt
  process_netlink_telegram-IsNew has_handler (rtm_newaddr inet index addresses ∷ rest) host =
      All-append _ _
        (notices_of-IsNew has_handler (rtm_newaddr inet index addresses) (update host).0)
        (process_netlink_telegram-IsNew has_handler rest (update host).1)
  process_netlink_telegram-IsNew has_handler (rtm_deladdr inet index addresses ∷ rest) host =
      All-append _ _
        (notices_of-IsNew has_handler (rtm_deladdr inet index addresses) (update host).0)
        (process_netlink_telegram-IsNew has_handler rest (update host).1)
  process_netlink_telegram-IsNew has_handler (other_nlmsg ∷ rest) host =
      All-append (notices_of has_handler other_nlmsg (update host).0) _
        (notices_of-IsNew has_handler other_nlmsg (update host).0)
        (process_netlink_telegram-IsNew has_handler rest (update host).1)
