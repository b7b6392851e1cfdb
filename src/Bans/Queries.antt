-- ===== src/Bans/Queries.antt =====
-- The queries about the masks of a channel, `sql_channel_ban` and the three like it of
-- src/ChanBanMode.c, and `rdb_escape` of src/rdb.c. The queries are the result of the functions, in
-- their order; `mysql_store_result` and `mysql_real_escape_string` are parameters. USE_MYSQL is
-- defined and the database is MySQL.
use denora.Prelude.{ℕ, Bool, List, [], ◌∷◌, Option, none, some, CString, ◌==◌, if◌then◌else◌}
use denora.Bans.Masks.{Pointer, MaskArray}

-- The counts of a channel, which stay when it is deleted.
pub record StatsChannel : Type 0 where
  pub name : CString
  pub usercount : ℕ
  pub maxusercount : ℕ
  pub maxusertime : ℕ
  pub in_use : Bool
  pub joincounter : ℕ
  pub joincounttime : ℕ
  pub partcount : ℕ
  pub partcounttime : ℕ
  pub kickcount : ℕ
  pub kickcounttime : ℕ
  pub modecount : ℕ
  pub modecounttime : ℕ
  pub topic_count : ℕ
  pub topiccounttime : ℕ
  pub secret : Bool
  pub private : Bool

-- A channel, with its masks, the values of its modes, the list of the modes that are set, and the
-- list of its users. A user and the counts are at an address, a number.
pub record Channel : Type 0 where
  pub name : CString
  pub sqlchan : CString
  pub bans : MaskArray
  pub excepts : MaskArray
  pub invite : MaskArray
  pub quiet : MaskArray
  pub limit : ℕ
  pub rejoinlock : ℕ
  pub nickchgflood : Pointer
  pub key : Pointer
  pub redirect : Pointer
  pub flood : Pointer
  pub flood_alt : Pointer
  pub modes : List CString
  pub creation_time : ℕ
  pub topic : Pointer
  pub topic_setter : CString
  pub topic_time : ℕ
  pub users : List ℕ
  pub stats : ℕ
  pub statservon : Bool

pub data SqlTable : Type 0 where
  chan_bans chan_except chan_invite chan_quiet : SqlTable

pub data Query : Type 0 where
  select : SqlTable → CString → CString → Query
  insert : SqlTable → CString → CString → Query
  delete : SqlTable → CString → CString → Query
  delete_all : SqlTable → CString → Query

-- The configuration, and the database library: `rows` is what `mysql_num_rows` says of the result
-- of a query, or `none` if there is no result.
pub record Sql : Type 0 where
  pub large_net : Bool
  pub do_sql : Bool
  pub quote : CString → CString
  pub rows : Query → Option ℕ

unfoldable pub rdb_escape : Sql → Pointer → CString
rdb_escape db none = []
rdb_escape db (some ch) = db.quote ch

-- behind the SELECT of the type ADD
unfoldable pub insert_unless_found : SqlTable → CString → CString → Option ℕ → List Query
insert_unless_found table chan mask none = []
insert_unless_found table chan mask (some rows) =
    if rows == 0 then insert table chan mask ∷ [] else []

-- The body that `sql_channel_ban` and the three like it share. ADD is 1 and DEL is 2.
unfoldable pub sql_channel : SqlTable → Sql → ℕ → Channel → Pointer → List Query
unfolding rdb_escape insert_unless_found
sql_channel table db type c mask =
    let m = rdb_escape db mask in
    let q = select table c.sqlchan m in
    if db.large_net
    then []
    else if type == 1
    then q ∷ insert_unless_found table c.sqlchan m (db.rows q)
    else if type == 2
    then delete table c.sqlchan m ∷ []
    else delete_all table c.sqlchan ∷ []

unfoldable pub sql_channel_ban : Sql → ℕ → Channel → Pointer → List Query
unfolding sql_channel
sql_channel_ban = sql_channel chan_bans

unfoldable pub sql_channel_quiet : Sql → ℕ → Channel → Pointer → List Query
unfolding sql_channel
sql_channel_quiet = sql_channel chan_quiet

unfoldable pub sql_channel_exception : Sql → ℕ → Channel → Pointer → List Query
unfolding sql_channel
sql_channel_exception = sql_channel chan_except

unfoldable pub sql_channel_invite : Sql → ℕ → Channel → Pointer → List Query
unfolding sql_channel
sql_channel_invite = sql_channel chan_invite
