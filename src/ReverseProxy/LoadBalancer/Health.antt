-- ===== src/ReverseProxy/LoadBalancer/Health.antt =====
-- `LoadBalancer`: what a report that a server is down, and a heartbeat, do to its profile.
use unixtar.Prelude.{
  ℕ, zero, suc, ◌+◌, ◌^◌, ◌<◌, ◌≤◌, Bool, true, List, [], ◌∷◌, some, get_elem?, arith, ◌≡◌, ◌≢◌,
  ◌↔◌, refl, ap,
}
use mathlib.Core.Option
use unixtar.ReverseProxy.LoadBalancer.{
  WebServerProfile, LoadBalancer, web_server_down, heartbeat, update_server, report_web_server_down,
  on_recv_heartbeat, is_web_server_available, ask, default_retry_period,
}

-- Whether the server at an index is available at a time.
unfoldable pub available : ℕ → ℕ → LoadBalancer → Bool
unfolding ask
available now i b = (ask now i b.web_servers).1

ask-get :
    (now i : ℕ) (svrs : List WebServerProfile) (svr : WebServerProfile)
    → get_elem? svrs i ≡ some svr
    → (ask now i svrs).1 ≡ (is_web_server_available now svr).1
unfolding ask
ask-get now i [] svr e = cc
ask-get now zero (x ∷ svrs) svr e = ap (λ o. (is_web_server_available now (Option.get_or o x)).1) e
ask-get now (suc i) (x ∷ svrs) svr e = ask-get now i svrs svr e

get-update_server :
    (f : WebServerProfile → WebServerProfile) (i : ℕ) (svrs : List WebServerProfile)
    (svr : WebServerProfile)
    → get_elem? svrs i ≡ some svr
    → get_elem? (update_server f i svrs) i ≡ some (f svr)
unfolding update_server
get-update_server f i [] svr e = cc
get-update_server f zero (x ∷ svrs) svr e = ap (λ o. some (f (Option.get_or o x))) e
get-update_server f (suc i) (x ∷ svrs) svr e = get-update_server f i svrs svr e

get-update_server_other :
    (f : WebServerProfile → WebServerProfile) (i j : ℕ) (svrs : List WebServerProfile)
    → i ≢ j
    → get_elem? (update_server f i svrs) j ≡ get_elem? svrs j
unfolding update_server
get-update_server_other f i j [] ne = refl
get-update_server_other f zero zero (x ∷ svrs) ne = absurd (ne refl)
get-update_server_other f zero (suc j) (x ∷ svrs) ne = refl
get-update_server_other f (suc i) zero (x ∷ svrs) ne = refl
get-update_server_other f (suc i) (suc j) (x ∷ svrs) ne =
    get-update_server_other f i j svrs (λ e. ne (ap suc e))

available_heartbeat :
    (now then load : ℕ) (svr : WebServerProfile)
    → ((is_web_server_available now (heartbeat then load svr)).1 ≡ true) ↔ (0 < svr.weight)
unfolding is_web_server_available heartbeat
available_heartbeat now then load svr = ground arith

available_down :
    (now then : ℕ) (svr : WebServerProfile)
    → 0 < svr.weight
    → then + default_retry_period < 2 ^ 64
    → ((is_web_server_available now (web_server_down then svr)).1 ≡ true)
      ↔ (now ≤ then + default_retry_period)
unfolding is_web_server_available web_server_down
available_down now then svr h l = ground arith

-- Behind a heartbeat of a registered server it is available, at every time, exactly if it has a
-- weight; the heartbeat changes no other profile.
pub available-on_recv_heartbeat :
    (now then i load : ℕ) (b : LoadBalancer) (svr : WebServerProfile)
    → get_elem? b.web_servers i ≡ some svr
    → ((available now i (on_recv_heartbeat then i load b) ≡ true) ↔ (0 < svr.weight))
      × ((j : ℕ)
          → i ≢ j
          → get_elem? (LoadBalancer.web_servers (on_recv_heartbeat then i load b)) j
            ≡ get_elem? b.web_servers j)
unfolding on_recv_heartbeat available
available-on_recv_heartbeat now then i load b svr e = (
  rw
      (ask-get now i (update_server (heartbeat then load) i b.web_servers) (heartbeat then load svr)
        (get-update_server (heartbeat then load) i b.web_servers svr e))
      (available_heartbeat now then load svr),
  λ j. get-update_server_other (heartbeat then load) i j b.web_servers,
)

-- Behind a report at the time `then` that a registered server with a weight is down, it counts
-- as available at the time `now` exactly if the retry period is not over, when `then` and the
-- period fit in 64 bits; the report changes no other profile.
pub available-report_web_server_down :
    (now then i : ℕ) (b : LoadBalancer) (svr : WebServerProfile)
    → get_elem? b.web_servers i ≡ some svr
    → 0 < svr.weight
    → then + default_retry_period < 2 ^ 64
    → ((available now i (report_web_server_down then i b) ≡ true)
        ↔ (now ≤ then + default_retry_period))
      × ((j : ℕ)
          → i ≢ j
          → get_elem? (LoadBalancer.web_servers (report_web_server_down then i b)) j
            ≡ get_elem? b.web_servers j)
unfolding report_web_server_down available
available-report_web_server_down now then i b svr e w l = (
  rw
      (ask-get now i (update_server (web_server_down then) i b.web_servers)
        (web_server_down then svr) (get-update_server (web_server_down then) i b.web_servers svr e))
      (available_down now then svr w l),
  λ j. get-update_server_other (web_server_down then) i j b.web_servers,
)
