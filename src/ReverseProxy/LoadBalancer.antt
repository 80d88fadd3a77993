-- ===== src/ReverseProxy/LoadBalancer.antt =====
-- reverseproxy/loadbalancer.h and reverseproxy/loadbalancer.cc. A profile is known by its index in
-- `web_servers_`, and `last_selected_` is an index too. What is not under the repository comes as
-- an argument: `clock k` is what `gettickcount` returns in round `k` of a loop, and `pton` is
-- `inet_pton`.
pub mod Poll
pub mod Choice
pub mod Health
use unixtar.Prelude.{
  ℕ, zero, suc, ◌+◌, ◌*◌, ◌%◌, ◌^◌, ◌≤◌, ◌<◌, Bool, true, false, List, [], ◌∷◌, ◌++◌, Option, none,
  some, Bytes, length, get_elem?, set, ltb, leb, ◌==◌, if◌then◌else◌,
}
use mathlib.Core.Option

pub record WebServerProfile : Type 0 where
  pub weight : ℕ
  pub last_down_ts : ℕ
  pub last_heartbeat_ts : ℕ
  pub is_down : Bool
  pub is_overload : Bool
  pub backlog : ℕ
  pub svr_id : ℕ
  pub ip : Bytes
  pub port : ℕ

-- `WebServerProfile::WebServerProfile` with the next sequence number.
abbrev pub new_web_server_profile : ℕ → WebServerProfile
new_web_server_profile seq = record {
  weight = 0;
  last_down_ts = 0;
  last_heartbeat_ts = 0;
  is_down = false;
  is_overload = false;
  backlog = 0;
  svr_id = seq;
  ip = [];
  port = 0;
}

pub data BalanceRule : Type 0 where
  unknown poll by_weight ip_hash : BalanceRule

pub record LoadBalancer : Type 0 where
  pub balance_rule : BalanceRule
  pub web_servers : List WebServerProfile
  pub last_selected : ℕ
  pub curr_weight : ℕ

abbrev pub default_retry_period : ℕ
default_retry_period = 10 * 60 * 1000

abbrev pub max_weight : ℕ
max_weight = 10

abbrev pub overload_backlog : ℕ
overload_backlog = 4096

abbrev pub new_load_balancer : LoadBalancer
new_load_balancer = record {
  balance_rule = unknown;
  web_servers = [];
  last_selected = 0;
  curr_weight = 0;
}

-- `none` is a failed assertion.
unfoldable pub register_web_server : WebServerProfile → LoadBalancer → Option LoadBalancer
register_web_server svr b =
    if ltb max_weight svr.weight
    then none
    else some (record b { web_servers = b.web_servers ++ svr ∷ []; last_selected = 0 })

unfoldable pub config_rule : BalanceRule → LoadBalancer → Option LoadBalancer
config_rule unknown b = none
config_rule rule b = some (record b { balance_rule = rule })

unfoldable pub web_server_down : ℕ → WebServerProfile → WebServerProfile
web_server_down now svr = record svr { is_down = true; last_down_ts = now }

unfoldable pub heartbeat : ℕ → ℕ → WebServerProfile → WebServerProfile
heartbeat now load svr = record svr {
  is_down = false;
  backlog = load;
  last_heartbeat_ts = now;
  is_overload = ltb overload_backlog load;
}

-- Changes the profile at an index.
unfoldable pub update_server :
    (WebServerProfile → WebServerProfile) → ℕ → List WebServerProfile → List WebServerProfile
update_server f i [] = []
update_server f zero (svr ∷ svrs) = f svr ∷ svrs
update_server f (suc i) (svr ∷ svrs) = svr ∷ update_server f i svrs

unfoldable pub report_web_server_down : ℕ → ℕ → LoadBalancer → LoadBalancer
unfolding update_server web_server_down
report_web_server_down now i b = record b {
  web_servers = update_server (web_server_down now) i b.web_servers;
}

unfoldable pub on_recv_heartbeat : ℕ → ℕ → ℕ → LoadBalancer → LoadBalancer
unfolding update_server heartbeat
on_recv_heartbeat now i load b = record b {
  web_servers = update_server (heartbeat now load) i b.web_servers;
}

-- `__IsWebServerAvailable`: the answer, and the profile, which may be marked as up again.
unfoldable pub is_web_server_available : ℕ → WebServerProfile → WebServerProfile × Bool
is_web_server_available now svr =
    if leb svr.weight 0
    then (svr, false)
    else if (if svr.is_down then false else true)
    then (svr, true)
    else if leb now ((svr.last_down_ts + default_retry_period) % 2 ^ 64)
    then (record svr { is_down = false }, true)
    else (svr, false)

-- `++last_selected_`, and back to the beginning at the end.
unfoldable pub advance : ℕ → ℕ → ℕ
advance n i = if i + 1 == n then 0 else i + 1

-- The profile at `i` is asked; with the answer goes the list with that profile as it is left.
unfoldable pub ask : ℕ → ℕ → List WebServerProfile → List WebServerProfile × Bool
unfolding is_web_server_available
ask now i [] = ([], false)
ask now zero (svr ∷ svrs) = let (svr', up) = is_web_server_available now svr in (svr' ∷ svrs, up)
ask now (suc i) (svr ∷ svrs) = let (svrs', up) = ask now i svrs in (svr ∷ svrs', up)

-- The do-while loop of `__BalanceByPoll` from round `k` on: the index selected and the profiles.
-- `none` means that the fuel ran out; the source goes on for as long as no server is available.
unfoldable pub poll_loop :
    ℕ → (ℕ → ℕ) → ℕ → ℕ → List WebServerProfile → Option (ℕ × List WebServerProfile)
unfolding advance ask
poll_loop zero clock k i svrs = none
poll_loop (suc fuel) clock k i svrs =
    let j = advance (length svrs) i in
    let (svrs', up) = ask (clock k) j svrs in
    elim up [ true ↦ some (j, svrs') | false ↦ poll_loop fuel clock (k + 1) j svrs' ]

-- What `Select` does: it returns a server, or the null pointer when none is registered; it locks
-- a mutex again that it holds already; or it is still in the loop when the fuel runs out.
pub data Selected : Type 0 where
  selected : ℕ → LoadBalancer → Selected
  null : Selected
  locked_twice : Selected
  still_polling : Selected

-- What `inet_pton` returns: 1 and the address, 0, or -1.
pub data Pton : Type 0 where
  address : ℕ → Pton
  not_parseable : Pton
  failed : Pton

unfoldable pub polled : Option (ℕ × List WebServerProfile) → LoadBalancer → Selected
polled none b = still_polling
polled (some (i, svrs)) b = selected i (record b { last_selected = i; web_servers = svrs })

-- `__BalanceByIpHash`; without an address `Select` returns the front server.
unfoldable pub balance_by_ip_hash : Pton → LoadBalancer → Selected
balance_by_ip_hash (address ip) b =
    let i = ip % length b.web_servers in
    selected i (record b {
      last_selected = i;
      curr_weight =
          Option.get_or
            (Option.map (λ svr. WebServerProfile.weight svr) (get_elem? b.web_servers i)) 0;
    })
balance_by_ip_hash _ b = selected 0 b

unfoldable pub select_by :
    BalanceRule → ℕ → (ℕ → ℕ) → (Bytes → Pton) → Bytes → LoadBalancer → Selected
unfolding polled poll_loop balance_by_ip_hash
select_by poll fuel clock pton ip b =
    polled (poll_loop fuel clock 0 b.last_selected b.web_servers) b
select_by by_weight fuel clock pton ip b = locked_twice
select_by ip_hash fuel clock pton ip b = balance_by_ip_hash (pton ip) b
select_by unknown fuel clock pton ip b = selected 0 b

-- `Select`: `__BalanceByWeight` begins by locking `mutex_`, which `Select` holds.
unfoldable pub select : ℕ → (ℕ → ℕ) → (Bytes → Pton) → Bytes → LoadBalancer → Selected
unfolding select_by
select fuel clock pton ip b =
    if length b.web_servers == 0 then null else select_by b.balance_rule fuel clock pton ip b
