-- ===== src/Servers/Introduction.antt =====
-- The introduction of a server, `do_server` of src/servers.c.
use denora.Prelude.{
  or_true, ℕ, ◌≡◌, refl, ap, ◌∙◌, ◌∷◌, Option, none, some, CString, inl, inr, Bool-cases,
  stricmp_eq, ◌==◌, if◌then◌else◌,
}
use denora.Bans.Masks.{Pointer}
use denora.Servers.{
  no_server, address, find_name, findserver, Network, Net, extend, made_server, linked, make_server,
  extended, with_uplink, do_server,
}
use denora.Servers.Linking.{
  HaveHops, HaveHops-extend, HaveHops-link, holds-extend, holds-link, find_name-extend,
  find_name-link_other, find_name-link_new, find_name-same,
}
use denora.Servers.Pointers.{Points, uplink_of-Found}

-- Each server has as many hops, in 16 bits, as there are links between it and the head of the list,
-- and `me_server` is null or points to a server.
pub record IsNet (net : Net) : Type 0 where
  pub hops : HaveHops 0 net.servlist
  pub me : Points net.servlist net.me_server

-- The list behind an introduction, when the uplink is known.
with_uplink-HaveHops :
    (net : Net) (uplink : Option ℕ) (name : CString) (desc numeric : Pointer)
    → HaveHops 0 net.servlist
    → HaveHops 0 (with_uplink net name desc numeric uplink).servlist
unfolding with_uplink make_server linked extended
with_uplink-HaveHops net none name desc numeric h = (refl, (tt, h))
with_uplink-HaveHops net (some a) name desc numeric h =
    HaveHops-link a 0 (made_server net.free name desc numeric) (extend a name net.servlist)
      (HaveHops-extend a 0 name net.servlist h)

with_uplink-Points :
    (net : Net) (uplink : Option ℕ) (name : CString) (desc numeric : Pointer) (o : Option ℕ)
    → Points net.servlist o
    → Points (with_uplink net name desc numeric uplink).servlist o
unfolding with_uplink make_server linked extended
with_uplink-Points net uplink name desc numeric none h = tt
with_uplink-Points net none name desc numeric (some b) h = rw h (or_true (net.free == b))
with_uplink-Points net (some a) name desc numeric (some b) h =
    holds-link a b (made_server net.free name desc numeric) (extend a name net.servlist)
      (holds-extend a b name net.servlist ∙ h)

same_me :
    (net : Net) (uplink : Option ℕ) (name : CString) (desc numeric : Pointer)
    → (with_uplink net name desc numeric uplink).me_server ≡ net.me_server
unfolding with_uplink make_server extended
same_me net none name desc numeric = refl
same_me net (some a) name desc numeric = refl

-- `do_server` of any server, on a network that is as `IsNet` says, succeeds and leaves it so: each
-- server has as many hops, in 16 bits, as there are links from it to the head of the list, and
-- `me_server` is null or points to a server.
pub do_server-IsNet :
    (ircd : Network) (net : Net) (source : Pointer) (name : CString) (desc numeric : Pointer)
    → IsNet net
    → (net' : Net) × (do_server ircd net source name desc numeric ≡ some net') × IsNet net'
unfolding do_server
do_server-IsNet ircd net source name desc numeric w =
    let (o, e, h) = uplink_of-Found ircd net source name w.me in
    rw e (
      _,
      refl,
      record {
        hops = with_uplink-HaveHops net o name desc numeric w.hops;
        me =
            rw (same_me net o name desc numeric)
              (with_uplink-Points net o name desc numeric net.me_server w.me);
      },
    )

-- The lookup of a name behind an introduction.
with_uplink-find_name :
    (net : Net) (uplink : Option ℕ) (c d : ℕ) (n r : CString) (desc numeric : Pointer)
    → Points net.servlist uplink
    → findserver net.servlist (some (c ∷ n)) ≡ no_server
    → address (find_name (d ∷ r) (with_uplink net (c ∷ n) desc numeric uplink).servlist) ≡ (
        if stricmp_eq (c ∷ n) (d ∷ r)
        then some net.free
        else address (find_name (d ∷ r) net.servlist))
unfolding with_uplink make_server linked extended findserver find_name
with_uplink-find_name net none c d n r desc numeric h e =
    elim (Bool-cases (stricmp_eq (c ∷ n) (d ∷ r))) [ inl q ↦ rw q refl | inr q ↦ rw q refl ]
with_uplink-find_name net (some a) c d n r desc numeric h e =
    elim (Bool-cases (stricmp_eq (c ∷ n) (d ∷ r))) [
      | inl q ↦ rw q (
          find_name-link_new a (made_server net.free (c ∷ n) desc numeric) (d ∷ r)
            (extend a (c ∷ n) net.servlist) q
            (find_name-extend a (c ∷ n) (d ∷ r) net.servlist
              ∙ find_name-same c d n r net.servlist q
              ∙ ap address e)
          ∙ rw (holds-extend a a (c ∷ n) net.servlist, h) refl)
      | inr q ↦ rw q (
          find_name-link_other a (made_server net.free (c ∷ n) desc numeric) (d ∷ r)
            (extend a (c ∷ n) net.servlist) q
          ∙ find_name-extend a (c ∷ n) (d ∷ r) net.servlist)
    ]

-- Let no server have the name, which is not empty, up to case. Then after `do_server` the lookup
-- `findserver` finds under every name that is equal to it up to case the new server, and under
-- every other name the server that it found before, or none as before.
pub do_server-findserver :
    (ircd : Network) (net : Net) (source : Pointer) (c : ℕ) (n : CString) (desc numeric : Pointer)
    → IsNet net
    → findserver net.servlist (some (c ∷ n)) ≡ no_server
    → (net' : Net) × (do_server ircd net source (c ∷ n) desc numeric ≡ some net')
      × ((d : ℕ) (r : CString)
          → address (findserver net'.servlist (some (d ∷ r))) ≡ (
              if stricmp_eq (c ∷ n) (d ∷ r)
              then some net.free
              else address (findserver net.servlist (some (d ∷ r)))))
unfolding do_server findserver
do_server-findserver ircd net source c n desc numeric w e =
    let (o, k, h) = uplink_of-Found ircd net source (c ∷ n) w.me in
    rw k (_, refl, λ d r. with_uplink-find_name net o c d n r desc numeric h e)
