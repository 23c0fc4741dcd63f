-- ===== src/Pool.antt =====
-- The pool of PostgreSQL connections (src/db/postgres/PgConnectionPool.cpp). A connection is known by
-- its handle, a number that is not 0, which stands for `nullptr`. What libpq answers is an argument:
-- whether a connection is usable (valid, or valid after a reset), and the handles that it opens.
pub mod Exclusive
pub mod Reach
pub mod Answers
mod Tests
use alarm_sys_linux.Common.{
  ℕ, zero, suc, ◌+◌, ◌-◌, ◌≤◌, ◌==◌, ltb, leb, ◌≡◌, Bool, true, false, not, ◌&&◌, ◌||◌, Option,
  none, some, List, [], ◌∷◌, ◌++◌, length, if◌then◌else◌,
}

-- `PgPooledConnection`; times are in seconds.
pub record PgPooledConnection : Type 0 where
  pub connection : ℕ
  pub in_use : Bool
  pub last_used : ℕ

abbrev pub Connections : Type 0
Connections = List PgPooledConnection

-- `PoolStats`, by the counts.
pub record PoolStats : Type 0 where
  pub total_connections : ℕ
  pub active_connections : ℕ
  pub idle_connections : ℕ

abbrev pub prepend : PgPooledConnection → Option (Connections × ℕ) → Option (Connections × ℕ)
prepend conn none = none
prepend conn (some (rest, handle)) = some (conn ∷ rest, handle)

-- The search for an idle connection that is usable, which is then in use.
unfoldable pub take_idle : (ℕ → Bool) → ℕ → Connections → Option (Connections × ℕ)
take_idle usable now [] = none
take_idle usable now (conn ∷ rest) =
    let later = prepend conn (take_idle usable now rest) in
    if not conn.in_use && usable conn.connection
    then some (record conn { in_use = true; last_used = now } ∷ rest, conn.connection)
    else later

abbrev pub opened : ℕ → Bool → ℕ → PgPooledConnection
opened handle in_use now = record { connection = handle; in_use = in_use; last_used = now }

unfoldable pub get_new : ℕ → ℕ → Option ℕ → Connections → Option (Connections × ℕ)
get_new now max_connections none conns = none
get_new now max_connections (some handle) conns =
    if ltb (length conns) max_connections
    then some (conns ++ opened handle true now ∷ [], handle)
    else none

abbrev pub or_then : Option (Connections × ℕ) → Option (Connections × ℕ) → Option (Connections × ℕ)
or_then none next = next
or_then (some found) next = some found

-- `getConnection` up to its wait: an idle connection, or a new one. After the wait, which gives up the
-- lock, the search is made again.
unfoldable pub get_connection :
    (ℕ → Bool) → ℕ → ℕ → Option ℕ → Connections → Option (Connections × ℕ)
get_connection usable now max_connections created conns =
    or_then (take_idle usable now conns) (get_new now max_connections created conns)

unfoldable pub get_after_wait : (ℕ → Bool) → ℕ → Connections → Option (Connections × ℕ)
get_after_wait usable now conns = take_idle usable now conns

-- The first connection of the handle.
unfoldable pub release_in : ℕ → ℕ → Connections → Connections
release_in handle now [] = []
release_in handle now (conn ∷ rest) =
    let later = release_in handle now rest in
    if conn.connection == handle
    then record conn { in_use = false; last_used = now } ∷ rest
    else conn ∷ later

unfoldable pub release_connection : ℕ → ℕ → Connections → Connections
unfolding release_in
release_connection handle now conns = if handle == 0 then conns else release_in handle now conns

unfoldable pub remove_stale_connections : ℕ → ℕ → Connections → Connections
remove_stale_connections now idle_timeout [] = []
remove_stale_connections now idle_timeout (conn ∷ rest) =
    let later = remove_stale_connections now idle_timeout rest in
    if not conn.in_use && ltb idle_timeout (now - conn.last_used) then later else conn ∷ later

-- The loop of `ensureMinConnections`, with the answers of libpq; it ends at the first failure.
unfoldable pub add_connections : ℕ → ℕ → List (Option ℕ) → Connections → Connections
add_connections now zero answers conns = conns
add_connections now (suc n) [] conns = conns
add_connections now (suc n) (none ∷ answers) conns = conns
add_connections now (suc n) (some handle ∷ answers) conns =
    add_connections now n answers (conns ++ opened handle false now ∷ [])

unfoldable pub ensure_min_connections : ℕ → ℕ → List (Option ℕ) → Connections → Connections
ensure_min_connections now min_connections answers conns =
    add_connections now (min_connections - length conns) answers conns

-- `initializePool`: a first connection, as a test of the parameters. The answer is whether it opens.
unfoldable pub initialize_pool : ℕ → Option ℕ → Connections → Connections × Bool
initialize_pool now none conns = (conns, false)
initialize_pool now (some handle) conns = (conns ++ opened handle false now ∷ [], true)

-- `closeAllConnections`, which asks for no connection whether it is in use.
unfoldable pub close_all_connections : Connections → Connections
close_all_connections conns = []

unfoldable pub count_active : Connections → ℕ
count_active [] = 0
count_active (conn ∷ rest) =
    let later = count_active rest in if conn.in_use then suc later else later

unfoldable pub count_idle : Connections → ℕ
count_idle [] = 0
count_idle (conn ∷ rest) = let later = count_idle rest in if conn.in_use then later else suc later

unfoldable pub get_stats : Connections → PoolStats
get_stats conns = record {
  total_connections = length conns;
  active_connections = count_active conns;
  idle_connections = count_idle conns;
}
