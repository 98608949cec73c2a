-- ===== src/Control/Methods.antt =====
-- Which methods may change the state.
use Prim.Native.String.{String}
use text.Mathlib.Text.{◌==◌ as str_eq}
use jetedge_agent.Prelude.{Bool, true, false, ◌≡◌, arith, List, Option}
use jetedge_agent.Control.Routes.{
  Action, write_op, take_snapshot, roll_back, benchmark, get_fixed, get_rest, get, route,
}

module _ {J : Type 0} where
  -- The actions that change the state or write a file.
  abbrev pub is_write : Action J → Bool
  is_write (write_op op id body) = true
  is_write (take_snapshot body) = true
  is_write (roll_back body) = true
  is_write (benchmark body) = true
  is_write _ = false

get-is_write :
    (J : Type 0) (query : String) (parts : List String) → is_write (get {J = J} query parts) ≡ false
unfolding get get_fixed get_rest
get-is_write J query parts = ground arith

module _ {J : Type 0} where
  -- A request that leads to an operation that changes the state, or to a benchmark, has the method
  -- POST, whatever its path, query and body.
  pub route-is_write :
      (empty_object : J) (parse : String → Option J) (method : String) (parts : List String)
      (query body : String)
      → is_write (route empty_object parse method parts query body) ≡ true
      → str_eq method "POST" ≡ true
  unfolding route
  route-is_write empty_object parse method parts query body h =
      ground (arith, h, get-is_write J query parts)
