-- ===== src/Servers/Cursor.antt =====
-- The walk over the servers, `first_server` and `next_server` of src/servers.c. A server that the
-- cursor stands on comes with its links, its next and its uplinks, each of these the head of the
-- list from there on. The loops have fuel for one round more than there are servers.
use denora.Prelude.{
  ℕ, zero, suc, ◌+◌, ◌<◌, ◌≤◌, ◌≡◌, refl, List, [], ◌∷◌, Option, none, some, arith,
}
use denora.Servers.{Server, ServerList, no_server, server}

pub data Cursor : Type 0 where
  nowhere : Cursor
  on : ServerList → List ServerList → Cursor

abbrev pub point : ServerList → List ServerList → Cursor
point no_server ups = nowhere
point (server s links next) ups = on (server s links next) ups

-- The inner loop of `next_server`, up to an uplink that has a next.
unfoldable pub climb : List ServerList → Cursor
climb [] = nowhere
climb (no_server ∷ ups) = nowhere
climb (server s links no_server ∷ ups) = climb ups
climb (server s links (server x l n) ∷ ups) = on (server x l n) ups

abbrev pub onward : ServerList → ServerList → ServerList → List ServerList → Cursor
unfolding climb
onward here no_server no_server ups = climb ups
onward here no_server (server x l n) ups = on (server x l n) ups
onward here (server x l n) next ups = on (server x l n) (here ∷ ups)

-- One round of the outer loop of `next_server`.
unfoldable pub step : Cursor → Cursor
unfolding onward
step nowhere = nowhere
step (on no_server ups) = nowhere
step (on (server s links next) ups) = onward (server s links next) links next ups

abbrev pub while_on : (Cursor → Option Cursor) → Cursor → Option Cursor
while_on go nowhere = some nowhere
while_on go (on s ups) = go (on s ups)

-- The outer loop; `none` if the fuel does not last.
unfoldable pub next_loop : ℕ → Cursor → Option Cursor
unfolding step
next_loop zero c = none
next_loop (suc fuel) c = let rest = next_loop fuel in while_on rest (step c)

abbrev pub size : ServerList → ℕ
size no_server = 0
size (server s links next) = suc (size links + size next)

abbrev pub size_behind : List ServerList → ℕ
size_behind [] = 0
size_behind (no_server ∷ ups) = size_behind ups
size_behind (server s links next ∷ ups) = size next + size_behind ups

abbrev pub weight : Cursor → ℕ
weight nowhere = 0
weight (on s ups) = size s + size_behind ups

unfoldable pub next_server : Cursor → Option Cursor
unfolding next_loop
next_server nowhere = some nowhere
next_server (on s ups) = next_loop (weight (on s ups) + 1) (on s ups)

abbrev pub then_while : (Cursor → Option Cursor) → Option Cursor → Option Cursor
then_while go none = none
then_while go (some c) = while_on go c

-- The loop of `first_server`.
unfoldable pub first_loop : ℕ → Cursor → Option Cursor
unfolding next_server
first_loop zero c = none
first_loop (suc fuel) c = let rest = first_loop fuel in then_while rest (next_server c)

unfoldable pub first_server : ServerList → Option Cursor
unfolding first_loop
first_server servlist = while_on (first_loop (size servlist)) (point servlist [])

climb-weight : (ups : List ServerList) → weight (climb ups) ≤ size_behind ups
unfolding climb
climb-weight [] = omega arith
climb-weight (no_server ∷ ups) = omega arith
climb-weight (server s links no_server ∷ ups) = let le = climb-weight ups in omega (arith, le)
climb-weight (server s links (server x l n) ∷ ups) = omega arith

step-weight :
    (s : Server) (links next : ServerList) (ups : List ServerList)
    → weight (step (on (server s links next) ups)) < weight (on (server s links next) ups)
unfolding step onward
step-weight s no_server no_server ups = let le = climb-weight ups in omega (arith, le)
step-weight s no_server (server x l n) ups = omega arith
step-weight s (server x l n) next ups = omega arith

next_loop_end :
    (f : ℕ) (s : ServerList) (ups : List ServerList)
    → weight (on s ups) < f
    → next_loop f (on s ups) ≡ some nowhere
unfolding next_loop step
next_loop_end zero s ups lt = absurd (omega arith)
next_loop_end (suc f) no_server ups lt = refl
next_loop_end (suc f) (server s links next) ups lt =
    let down = step-weight s links next ups in
    ends (step (on (server s links next) ups)) (next_loop_end f) (omega (arith, down))
  where
    ends :
        (c : Cursor)
        → ((s' : ServerList) (ups' : List ServerList)
            → weight (on s' ups') < f
            → next_loop f (on s' ups') ≡ some nowhere)
        → weight c < f
        → while_on (next_loop f) c ≡ some nowhere
    ends nowhere loop lt = refl
    ends (on s' ups') loop lt = loop s' ups' lt

-- `next_server` terminates from every place of the cursor, and answers the null pointer.
pub next_server-nowhere : (c : Cursor) → next_server c ≡ some nowhere
unfolding next_server
next_server-nowhere nowhere = refl
next_server-nowhere (on s ups) = next_loop_end (weight (on s ups) + 1) s ups (omega arith)

-- `first_server` terminates for every list of servers, however they are linked, and answers the
-- null pointer, also when there are servers; and so does `next_server` from every place of the
-- cursor.
pub first_server-nowhere :
    (servlist : ServerList) (c : Cursor)
    → (first_server servlist ≡ some nowhere) × (next_server c ≡ some nowhere)
unfolding first_server first_loop
first_server-nowhere no_server c = (refl, next_server-nowhere c)
first_server-nowhere (server s links next) c =
    (rw (next_server-nowhere (on (server s links next) [])) refl, next_server-nowhere c)
