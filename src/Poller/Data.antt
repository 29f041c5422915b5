-- ===== src/Poller/Data.antt =====
-- `SwitchMonitor`, what a poll is told by the network, and what it sends.
use aruba_network_agent.Prelude.{ℕ, String, ◌≡◌, ◌↔◌, Bool, true, false, Option, List, arith, Eq}
use aruba_network_agent.Prelude.Dict.{Dict}

-- The kinds of alert, "down" and "restored".
pub data Kind : Type 0 where
  down restored : Kind

abbrev pub kind_eq : Kind → Kind → Bool
kind_eq down down = true
kind_eq restored restored = true
kind_eq _ _ = false

pub kind_eq_iff : (a b : Kind) → (kind_eq a b ≡ true) ↔ (a ≡ b)
kind_eq_iff a b = ground arith

instance abbrev pub kind_Eq : Eq Kind
kind_Eq = record { test = kind_eq; test_iff = kind_eq_iff }

-- The fields of a `SwitchMonitor` that a poll reads or writes. The dedup window is in microseconds,
-- as all times; `has_batcher` says whether an `AlertBatcher` is wired in.
pub record Monitor : Type 0 where
  pub name : String
  pub host : String
  pub username : String
  pub password : String
  pub verify_ssl : Bool
  pub poll_interval : ℕ
  pub failure_threshold : ℕ
  pub monitor_mode : String
  pub has_snmp : Bool
  pub has_batcher : Bool
  pub alert_dedup : ℕ
  pub last_alert : Dict Kind ℕ
  pub classification_cooldown_until : Option ℕ

-- How `ping` ended: with an exit code, or with an exception of `subprocess`.
pub data PingResult : Type 0 where
  exit_code : ℕ → PingResult
  ping_failed : PingResult

-- How a session with a vendor driver went: an exception, or its answers (logged in, reachable,
-- hostname).
pub data RestResult : Type 0 where
  rest_failed : RestResult
  session : Bool → Bool → Option String → RestResult

-- What the network answers during one poll. The SNMP calls take the profile that they are made
-- with. `detect` is `none` where no detector is wired in, and then its result. `banner` is the bytes
-- that the SSH port sends, `none` on an `OSError`. `vendor_lookup` is what the `try` block of
-- `_maybe_resolve_vendor` finds, `driver_version` the result of `_os_version_via_driver`, and
-- `descr_version` that of `_parse_version_from_descr` on the host's sysDescr.
pub record Network : Type 0 where
  pub detect : Option (Option (String × String))
  pub snmp_reachable : Option String → Bool
  pub sys_name : Option String → Option String
  pub ping : PingResult
  pub banner : Option (List ℕ)
  pub rest : RestResult
  pub vendor_lookup : Option String → Option String
  pub driver_version : String → String
  pub descr_version : Option String → String

-- The body of an alert, by what is put into its template.
pub data Report : Type 0 where
  down_report : String → String → ℕ → ℕ → Report
  restored_report : String → String → Report

pub record Alert : Type 0 where
  pub kind : Kind
  pub label : String
  pub body : Report

-- Where an alert goes: to the batcher or straight to the notifier.
pub data Sent : Type 0 where
  queued mailed : Alert → Sent

abbrev pub sent_kind : Sent → Kind
sent_kind (queued a) = a.kind
sent_kind (mailed a) = a.kind
