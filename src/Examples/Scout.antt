-- ===== src/Examples/Scout.antt =====
-- examples/z_scout.c
pub mod Ownership
use Prim.Native.Nat.{bit_or}
use zenoh_flat_c.Base.{
  ℕ, zero, suc, ◌+◌, Bool, true, false, List, [], ◌∷◌, ◌++◌, ◌==◌, if◌then◌else◌, length,
}
use zenoh_flat_c.Base.Int.{pos}
use zenoh_flat_c.Base.Text.{Str, codes}
use zenoh_flat_c.Enums.{router, peer, client, whatami_value}
use zenoh_flat_c.Trace.{
  Handle, Trace, calls, prints, sleeps, returns, config, scout, argument, zid_text, locators,
  locator, z_config_default, z_config_drop, z_scout, z_scout_drop, z_zenoh_id_to_string,
  z_hello_locators, z_free,
}
use zenoh_flat_c.Examples.{failed}

-- The role is any number that the library may give.
unfoldable pub whatami_to_str : ℕ → Str
whatami_to_str w =
    if w == whatami_value router
    then codes "Router"
    else if w == whatami_value peer
    then codes "Peer"
    else if w == whatami_value client
    then codes "Client"
    else codes "Other"

-- What the accessors give of a hello.
pub record Hello : Type 0 where
  pub zid : Str
  pub whatami : ℕ
  pub locator_texts : List Str

-- The loop that prints the locators, from the i-th on.
unfoldable pub print_locators : ℕ → List Str → Trace → Trace
print_locators i [] rest = rest
print_locators i (text ∷ texts) rest =
    prints ((if i == 0 then [] else codes ", ") ++ text) ∷ print_locators (suc i) texts rest

-- The strings that `z_hello_locators` allocates, from the i-th on.
unfoldable pub locator_handles : ℕ → List Str → List Handle
locator_handles i [] = []
locator_handles i (_ ∷ texts) = locator i ∷ locator_handles (suc i) texts

-- The loop of the macro `z_free_array`.
unfoldable pub free_elements : List Handle → Trace → Trace
free_elements [] rest = rest
free_elements (h ∷ hs) rest = calls (z_free h) ∷ free_elements hs rest

-- The handler of a hello, in front of what follows; it also adds one to the count.
unfoldable pub hello_handler : Hello → Trace → Trace
hello_handler hello rest =
    calls (z_zenoh_id_to_string zid_text)
    ∷ prints (
        codes "Hello { zid: "
        ++ (hello.zid
            ++ (codes ", whatami: " ++ (whatami_to_str hello.whatami ++ codes ", locators: ["))))
    ∷ calls (z_hello_locators argument (locators ∷ locator_handles 0 hello.locator_texts))
    ∷ print_locators 0 hello.locator_texts (
        prints (codes "] }\n")
        ∷ free_elements (locator_handles 0 hello.locator_texts)
            (calls (z_free locators) ∷ calls (z_free zid_text) ∷ rest))

-- The hellos that arrive during the wait, and the count after them.
unfoldable pub hellos_trace : List Hello → ℕ → (ℕ → Trace) → Trace
hellos_trace [] count rest = rest count
hellos_trace (hello ∷ hellos) count rest =
    hello_handler hello (hellos_trace hellos (count + 1) rest)

unfoldable pub on_close : ℕ → Trace → Trace
on_close count rest =
    if count == 0 then prints (codes "Did not find any zenoh process.\n") ∷ rest else rest

-- `Router | Peer | Client`
unfoldable pub everything : ℕ
everything = bit_or (bit_or (whatami_value router) (whatami_value peer)) (whatami_value client)

-- `main`, with whether scouting starts and the hellos that arrive before it is stopped.
unfoldable pub main : Bool → List Hello → Trace
main starts hellos =
    calls (z_config_default config)
    ∷ prints (codes "Scouting...\n")
    ∷ calls (z_scout everything config scout starts)
    ∷ calls (z_config_drop config)
    ∷ (if starts
        then sleeps
          ∷ hellos_trace hellos 0
              (λ count. calls (z_scout_drop scout) ∷ on_close count (returns (pos 0) ∷ []))
        else prints (codes "Unable to start scouting.\n") ∷ returns failed ∷ [])
