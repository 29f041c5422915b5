-- ===== src/Web/Throttle.antt =====
-- `_LoginRateLimiter` of web/app.py. A time is a second of the monotonic clock.
use aruba_network_agent.Prelude.{
  ℕ, ◌+◌, String, Bool, ◌||◌, none, some, List, [], ◌∷◌, ◌++◌, string_Eq, ltb, leb, length,
  if◌then◌else◌,
}
use aruba_network_agent.Prelude.Dict.{Dict, get, put, remove}

pub record Limiter : Type 0 where
  pub max : ℕ
  pub window : ℕ
  pub by_ip : Dict String (List ℕ)
  pub by_user : Dict String (List ℕ)

-- `_login_limiter`
abbrev pub login_limiter : Limiter
login_limiter = record { max = 5; window = 900; by_ip = []; by_user = [] }

-- `d[k]` of a defaultdict of deques
abbrev pub deque : String → Dict String (List ℕ) → List ℕ
deque k d = elim (get k d) [ none ↦ [] | some ts ↦ ts ]

-- `_prune`: the loop over the oldest time; `dq[0] < now - window` is written without the difference.
unfoldable pub prune : ℕ → ℕ → List ℕ → List ℕ
prune window now [] = []
prune window now (t ∷ ts) =
    let rest = prune window now ts in if ltb (t + window) now then rest else t ∷ ts

abbrev pub prune_at : ℕ → ℕ → String → Dict String (List ℕ) → Dict String (List ℕ)
prune_at window now k d = put k (prune window now (deque k d)) d

unfoldable pub is_locked : ℕ → String → String → Limiter → Limiter × Bool
unfolding prune
is_locked now ip username l =
    let ips = prune_at l.window now ip l.by_ip in
    let users = prune_at l.window now username l.by_user in
    (
      record l { by_ip = ips; by_user = users },
      leb l.max (length (deque ip ips)) || leb l.max (length (deque username users)),
    )

abbrev pub append_at : ℕ → String → Dict String (List ℕ) → Dict String (List ℕ)
append_at now k d = put k (deque k d ++ now ∷ []) d

unfoldable pub record_failure : ℕ → String → String → Limiter → Limiter
record_failure now ip username l = record l {
  by_ip = append_at now ip l.by_ip;
  by_user = append_at now username l.by_user;
}

unfoldable pub record_success : String → String → Limiter → Limiter
record_success ip username l = record l {
  by_ip = remove ip l.by_ip;
  by_user = remove username l.by_user;
}

-- The calls of the web application, each with its address and its user name.
pub data LimiterCall : Type 0 where
  checked : ℕ → String → String → LimiterCall
  failed : ℕ → String → String → LimiterCall
  succeeded : ℕ → String → String → LimiterCall

unfoldable pub limiter_step : LimiterCall → Limiter → Limiter
unfolding is_locked record_failure record_success
limiter_step (checked now ip username) l = (is_locked now ip username l).0
limiter_step (failed now ip username) l = record_failure now ip username l
limiter_step (succeeded now ip username) l = record_success ip username l

unfoldable pub limiter_run : List LimiterCall → Limiter → Limiter
unfolding limiter_step
limiter_run [] l = l
limiter_run (c ∷ cs) l = limiter_run cs (limiter_step c l)
