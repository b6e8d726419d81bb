-- ===== src/Tests/Discovery.antt =====
-- The theorems about discovery at concrete inputs.
use goxic.Prelude.{
  ℕ, ◌+◌, ◌≡◌, ◌↔◌, refl, false, ◌&&◌, List, [], ◌∷◌, some, arith, leb, ltb, Elem, IsSublist, ◌*◌,
  ◌^◌,
}
use goxic.Prelude.Int.{pos}
use goxic.Discovery.State.{AddrInfo, ServerDiscovery, ten_minutes}
use goxic.Discovery.Loads.{track_connection, current_load}
use goxic.Discovery.Loads.Count.{
  Use, tracks, releases, run, count, current_load-run, current_load_empty,
}
use goxic.Discovery.Failures.{is_blacklisted}
use goxic.Discovery.Failures.Blacklist.Account.{
  Attempt, asks, fails, succeeds, attempted, account_of, empty-Holds, is_blacklisted-run,
}
use goxic.Discovery.Select.{select_load_balanced_server}
use goxic.Discovery.Select.Least.{IsLeast}
use goxic.Discovery.Select.Strategy.{HasInt64Loads, select_load_balanced_server-IsLeast}
use goxic.Discovery.Refresh.{visit_server, refresh_server_list}
use goxic.Discovery.Refresh.Collected.{Refreshed, IsVerified, refresh_server_list-Refreshed}
use goxic.Discovery.Available.{get_available_servers}
use goxic.Discovery.Available.Offered.{IsUsable, IsUpToDate, get_available_servers_iff}
use goxic.Tests.Sample.{Name, alice, bob, carol, three, addr, calm, settings}

abbrev pub fresh : ServerDiscovery Name
fresh = record {
  server_peers = addr alice ∷ addr bob ∷ addr carol ∷ [];
  last_update = 0;
  update_interval = pos (30 * 10 ^ 9);
  server_loads = [];
  peer_failures = [];
  max_failures = pos 3;
  blacklist_time = pos ten_minutes;
  started = false;
}

abbrev uses : List (Use Name)
uses = tracks 1 bob ∷ tracks 2 carol ∷ tracks 3 bob ∷ releases bob ∷ releases alice ∷ []

current_load-run_example :
    current_load three (run three fresh uses) bob ≡ pos (count three bob 0 uses)
current_load-run_example =
    current_load-run three fresh bob 0 uses (omega arith) (current_load_empty three fresh bob refl)

-- Three failures, a question after eleven minutes, and one failure more.
abbrev minute : ℕ
minute = 60 * 10 ^ 9

abbrev attempts : List (Attempt Name)
attempts =
    asks 0 bob
    ∷ fails 0 bob
    ∷ asks minute bob
    ∷ fails minute bob
    ∷ asks (2 * minute) bob
    ∷ fails (2 * minute) bob
    ∷ succeeds minute carol
    ∷ asks (13 * minute) bob
    ∷ fails (13 * minute) bob
    ∷ []

is_blacklisted-run_example :
    let (n, last) = account_of three bob (0, 0) attempts in
    (is_blacklisted three (14 * minute) bob (attempted three fresh attempts)).0
    ≡ (leb 3 n && ltb (14 * minute) (last + ten_minutes))
is_blacklisted-run_example =
    is_blacklisted-run three bob (0, 0) fresh attempts (14 * minute) (omega arith)
      (empty-Holds three bob fresh refl (refl, refl))

fresh-HasInt64Loads : HasInt64Loads three fresh
fresh-HasInt64Loads p = rw (current_load_empty three fresh p refl) (omega arith)

select_load_balanced_server-IsLeast_example :
    (t : AddrInfo Name) × (select_load_balanced_server three 5 fresh (addr bob ∷ addr carol ∷ [])
      ≡ some (t, track_connection three 5 t.id fresh))
    × IsLeast three (current_load three fresh) (addr bob ∷ addr carol ∷ []) t
select_load_balanced_server-IsLeast_example =
    select_load_balanced_server-IsLeast three 5 fresh (addr bob) (addr carol ∷ [])
      fresh-HasInt64Loads

refresh_server_list-Refreshed_example :
    Refreshed three calm
      (visit_server three calm settings.max_servers)
      (IsVerified three calm)
      settings
      (7, fresh)
      (refresh_server_list three calm settings (7, fresh))
refresh_server_list-Refreshed_example = refresh_server_list-Refreshed three calm settings (7, fresh)

get_available_servers_iff_example :
    let r = get_available_servers three calm settings (7, fresh) in
    IsUpToDate three calm settings (7, fresh) r.0
    × IsSublist r.1 r.0.1.server_peers
    × ((t : AddrInfo Name)
        → Elem t r.1 ↔ (Elem t r.0.1.server_peers × IsUsable three calm r.0.1.started r.0.0 t))
get_available_servers_iff_example = get_available_servers_iff three calm settings (7, fresh)
