-- ===== src/Mysql/Slot/Release.antt =====
-- What a release of mysql_pool.c leaves of the connection's results.
use dart_db_connector.Base.{ℕ, ◌≡◌, refl, Bool, false, some, arith, get_elem?}
use dart_db_connector.FreeList.{Pool, release}
use dart_db_connector.FreeList.Scan.{is_out, give_back-out, give_back-elem}
use dart_db_connector.Mysql.Slot.{
  MysqlConn, mysql_lendable, mysql_pool_release, native_mysql_poll_result,
}

poll-in_use :
    (c : MysqlConn) (b : Bool)
    → (native_mysql_poll_result (some (record c { in_use = b }))).0
      ≡ (native_mysql_poll_result (some c)).0
unfolding native_mysql_poll_result
poll-in_use c b = ground arith

-- Releasing a MySQL connection of the pool makes it free, and leaves what a poll of it hands over
-- as it was before the release.
pub mysql_pool_release-poll :
    (p : Pool MysqlConn) (i : ℕ) (c : MysqlConn)
    → get_elem? p.conns i ≡ some c
    → (q : Pool MysqlConn) × (mysql_pool_release (some p) (some i) ≡ some q)
      × (is_out q.conns i ≡ false)
      × ((d : MysqlConn) × (get_elem? q.conns i ≡ some d)
          × ((native_mysql_poll_result (some d)).0 ≡ (native_mysql_poll_result (some c)).0))
unfolding mysql_pool_release release
mysql_pool_release-poll p i c e = (
  release p i,
  refl,
  give_back-out p.conns i,
  (record c { in_use = false }, give_back-elem p.conns i c e, poll-in_use c false),
)
