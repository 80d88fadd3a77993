-- ===== src/ReverseProxy/Examples.antt =====
-- Runs of the load balancer at concrete inputs, and its theorems there.
use unixtar.Prelude.{
  ℕ, suc, ◌+◌, ◌%◌, ◌<◌, ◌≤◌, Bool, true, false, List, [], ◌∷◌, some, Bytes, codes, get_elem?,
  arith, ◌≡◌, ◌≢◌, ◌↔◌, refl,
}
use unixtar.ReverseProxy.LoadBalancer.{
  WebServerProfile, BalanceRule, poll, ip_hash, LoadBalancer, default_retry_period, Pton, address,
  selected, still_polling, ask, select, report_web_server_down, on_recv_heartbeat,
}
use unixtar.ReverseProxy.LoadBalancer.Poll.{IsUp, advanced}
use unixtar.ReverseProxy.LoadBalancer.Choice.{
  chosen, selects, select_poll, select_poll_never, select_ip_hash, selects_in_turn,
}
use unixtar.ReverseProxy.LoadBalancer.Health.{
  available, available-on_recv_heartbeat, available-report_web_server_down,
}

abbrev server : ℕ → Bool → WebServerProfile
server w down = record {
  weight = w;
  last_down_ts = 0;
  last_heartbeat_ts = 0;
  is_down = down;
  is_overload = false;
  backlog = 0;
  svr_id = 1;
  ip = codes "127.0.0.1";
  port = 5002;
}

abbrev balancer : BalanceRule → List WebServerProfile → LoadBalancer
balancer rule svrs = record {
  balance_rule = rule;
  web_servers = svrs;
  last_selected = 0;
  curr_weight = 0;
}

abbrev late : ℕ → ℕ
late k = 1000000

abbrev pton : Bytes → Pton
pton ip = address 0x0100007f

abbrev mixed : List WebServerProfile
mixed = server 0 false ∷ server 5 true ∷ server 5 false ∷ []

select_poll_example :
    (m : ℕ) × (b' : LoadBalancer) × (select 3 late pton (codes "1.2.3.4") (balancer poll mixed)
      ≡ selected (advanced 3 (suc m) 0) b')
    × ((m' : ℕ) → m' < m → (ask 1000000 (advanced 3 (suc m') 0) mixed).1 ≡ false)
    × (picked : WebServerProfile) × (get_elem? b'.web_servers (advanced 3 (suc m) 0) ≡ some picked)
    × IsUp picked
    × (b'.last_selected ≡ advanced 3 (suc m) 0)
select_poll_example =
    select_poll 3 late pton (codes "1.2.3.4") (balancer poll mixed) 2 (server 5 false) refl
      (omega arith) refl (omega arith, refl) (omega arith)

select_poll_never_example :
    select 1000 late pton (codes "1.2.3.4") (balancer poll (server 0 false ∷ [])) ≡ still_polling
select_poll_never_example =
    select_poll_never 1000 late pton (codes "1.2.3.4") (balancer poll (server 0 false ∷ [])) refl
      (omega arith) (refl, tt)

select_ip_hash_example :
    (i : ℕ) × (i < 3)
    × (chosen (select 3 late pton (codes "127.0.0.1") (balancer ip_hash mixed)) ≡ some i)
    × (chosen (select 3 late pton (codes "127.0.0.1") (balancer ip_hash mixed)) ≡ some i)
select_ip_hash_example =
    select_ip_hash 3 late late pton (codes "127.0.0.1") (balancer ip_hash mixed)
      (balancer ip_hash mixed) refl refl (omega arith) refl

abbrev both_up : List WebServerProfile
both_up = server 1 false ∷ server 2 false ∷ []

selects_in_turn_example :
    chosen (
      select 2 late pton
        (codes "1.2.3.4")
        (selects 3 2 late pton (codes "1.2.3.4") (balancer poll both_up)))
    ≡ some ((0 + 4) % 2)
selects_in_turn_example =
    selects_in_turn 3 1 late pton (codes "1.2.3.4") (balancer poll both_up) refl (omega arith)
      ((omega arith, refl), ((omega arith, refl), tt))

available-on_recv_heartbeat_example :
    ((available 9 1 (on_recv_heartbeat 5 1 7 (balancer poll mixed)) ≡ true) ↔ (0 < 5))
    × ((j : ℕ)
        → 1 ≢ j
        → get_elem? (LoadBalancer.web_servers (on_recv_heartbeat 5 1 7 (balancer poll mixed))) j
          ≡ get_elem? mixed j)
available-on_recv_heartbeat_example =
    available-on_recv_heartbeat 9 5 1 7 (balancer poll mixed) (server 5 true) refl

available-report_web_server_down_example :
    ((available 9 2 (report_web_server_down 5 2 (balancer poll mixed)) ≡ true)
      ↔ (9 ≤ 5 + default_retry_period))
    × ((j : ℕ)
        → 2 ≢ j
        → get_elem? (LoadBalancer.web_servers (report_web_server_down 5 2 (balancer poll mixed))) j
          ≡ get_elem? mixed j)
available-report_web_server_down_example =
    available-report_web_server_down 9 5 2 (balancer poll mixed) (server 5 false) refl (omega arith)
      (omega arith)
