-- ===== src/Servers/Examples.antt =====
-- Runs of the introduction and of the lookups of servers on a concrete network.
use denora.Prelude.{
  ℕ, ◌≡◌, refl, true, false, [], ◌∷◌, none, some, CString, codes, stricmp_eq, if◌then◌else◌,
}
use denora.Servers.{
  Server, ServerList, no_server, server, address, findserver, Network, findserver_uid, Net,
  do_server,
}
use denora.Servers.Lookup.{lookups-listed}
use denora.Servers.Introduction.{IsNet, do_server-IsNet, do_server-findserver}
use denora.Servers.Cursor.{nowhere, on, first_server, next_server, first_server-nowhere}

abbrev ts6_network : Network
ts6_network = record {
  p10 = false;
  ts6 = true;
  numeric = false;
  server_name = codes "stats.net";
  ltoa = λ n. [];
}

abbrev stats_server : Server
stats_server = record {
  at = 0;
  name = codes "stats.net";
  desc = none;
  suid = some (codes "00A");
  hops = 0;
  slinks = codes "hub.net" ∷ [];
}

-- A server that was introduced without an id, with a leaf that has one.
abbrev hub : Server
hub = record {
  at = 1;
  name = codes "hub.net";
  desc = none;
  suid = none;
  hops = 1;
  slinks = codes "leaf.net" ∷ [];
}

abbrev leaf : Server
leaf = record {
  at = 2;
  name = codes "leaf.net";
  desc = none;
  suid = some (codes "00C");
  hops = 2;
  slinks = [];
}

abbrev servers : ServerList
servers = server stats_server (server hub (server leaf no_server no_server) no_server) no_server

abbrev network : Net
network = record { servlist = servers; me_server = some 0; free = 3 }

network-IsNet : IsNet network
network-IsNet = record { hops = (refl, ((refl, ((refl, (tt, tt)), tt)), tt)); me = refl }

lookups-listed_example :
    (findserver servers (some (codes "LEAF.net")) ≡ server leaf no_server no_server)
    × (findserver_uid ts6_network servers (some (codes "LEAF.net")) ≡ no_server)
unfolding stricmp_eq findserver_uid
lookups-listed_example = lookups-listed ts6_network servers b'L' (codes "EAF.net")

-- The leaf stands behind the hub, which has no id.
no_leaf : findserver_uid ts6_network servers (some (codes "00C")) ≡ no_server
unfolding findserver_uid stricmp_eq
no_leaf = refl

do_server-IsNet_example :
    (net : Net) × (do_server ts6_network network
        (some (codes "leaf.net"))
        (codes "new.net")
        none
        none
      ≡ some net)
    × IsNet net
do_server-IsNet_example =
    do_server-IsNet ts6_network network (some (codes "leaf.net")) (codes "new.net") none none
      network-IsNet

no_new_net : findserver servers (some (codes "new.net")) ≡ no_server
unfolding findserver stricmp_eq
no_new_net = refl

do_server-findserver_example :
    (net : Net) × (do_server ts6_network network
        (some (codes "leaf.net"))
        (codes "new.net")
        none
        none
      ≡ some net)
    × ((d : ℕ) (r : CString)
        → address (findserver net.servlist (some (d ∷ r))) ≡ (
            if stricmp_eq (codes "new.net") (d ∷ r)
            then some 3
            else address (findserver servers (some (d ∷ r)))))
do_server-findserver_example =
    do_server-findserver ts6_network network (some (codes "leaf.net")) b'n' (codes "ew.net") none
      none network-IsNet no_new_net

first_server-nowhere_example :
    (first_server servers ≡ some nowhere) × (next_server (on servers []) ≡ some nowhere)
first_server-nowhere_example = first_server-nowhere servers (on servers [])
