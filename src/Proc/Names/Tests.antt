-- ===== src/Proc/Names/Tests.antt =====
-- The cache and paths of proc/name.c at concrete inputs.
use phoenix_rtos_kernel.Base.{
  ℕ, ◌-◌, ◌^◌, ◌≡◌, refl, true, none, some, List, [], ◌∷◌, ◌&&◌, ◌||◌, if◌then◌else◌, ◌==◌, arith,
}
use phoenix_rtos_kernel.Proc.Names.{
  Oid, Names, name_eq, str_hash, entry_lookup, port_register, port_unregister, start_loop, Reply,
  resolved, Request, done, query, port_lookup,
}
use phoenix_rtos_kernel.Proc.Names.Chain.{is_first}
use phoenix_rtos_kernel.Proc.Names.Register.{
  IsCache, Registered, port_register_lem, port_unregister_lem,
}
use phoenix_rtos_kernel.Proc.Names.Prefix.{Starts, start_loop_lem}
use phoenix_rtos_kernel.Proc.Names.Servers.{asked, query-past_end, query-enough}

-- "/a", "/c", which has the same hash, and "/a/bc"
abbrev a_name : List ℕ
a_name = 47 ∷ 97 ∷ []

abbrev twin : List ℕ
twin = 47 ∷ 99 ∷ []

abbrev path : List ℕ
path = 47 ∷ 97 ∷ 47 ∷ 98 ∷ 99 ∷ []

same_hash : str_hash a_name ≡ str_hash twin
unfolding str_hash
same_hash = refl

abbrev root : Oid
root = record { port = 1; id = 0 }

abbrev empty : Names
empty = record { root_registered = true; root_oid = root; dcache = λ h. [] }

abbrev with_a : Names
with_a = (port_register 7 a_name (some 5) (some 0) empty).1

abbrev with_both : Names
with_both = (port_register 8 twin none (some 9) with_a).1

-- Taking out the newest name takes out the other one of its chain, too.
both_gone : entry_lookup (port_unregister twin with_both) a_name ≡ none
unfolding port_register port_unregister str_hash
both_gone = refl

one_gone : entry_lookup (port_unregister a_name with_both) twin ≡ some (record { port = 8; id = 9 })
unfolding port_register port_unregister str_hash
one_gone = refl

starts_at_a : start_loop 5 with_a path 5 root ≡ (2, record { port = 7; id = 5 })
unfolding start_loop port_register str_hash
starts_at_a = refl

-- A server that resolves what it is given but for one byte.
abbrev whole : ℕ → Reply
whole k = record { sent = none; count = resolved 2; fil = root; dev = root }

found : port_lookup path true true whole with_a ≡ record {
  err = done;
  fil = root;
  dev = root;
  requests = asked path 2 (record { port = 7; id = 5 }) ∷ [];
}
unfolding port_lookup start_loop query port_register str_hash
found = refl

empty-IsCache : IsCache empty
empty-IsCache h = tt

with_a-Registered :
    Registered 7 a_name (some 5) 0 empty (port_register 7 a_name (some 5) (some 0) empty)
with_a-Registered = port_register_lem 7 a_name (some 5) 0 empty empty-IsCache refl refl

port_register_lem_example :
    Registered 7 a_name (some 5) 0 empty (port_register 7 a_name (some 5) (some 0) empty)
port_register_lem_example = port_register_lem 7 a_name (some 5) 0 empty empty-IsCache refl refl

port_unregister_lem_example :
    IsCache (port_unregister a_name with_a)
    × ((n : List ℕ)
        → entry_lookup (port_unregister a_name with_a) n ≡ (
            if name_eq a_name n
              || (is_first (with_a.dcache (str_hash a_name)) a_name
                  && (str_hash n == str_hash a_name))
            then none
            else entry_lookup with_a n))
port_unregister_lem_example = port_unregister_lem a_name with_a with_a-Registered.1

start_loop_lem_example : Starts path refl with_a root 5 (start_loop 5 with_a path 5 root)
start_loop_lem_example = start_loop_lem path refl with_a root

abbrev greedy : ℕ → Reply
greedy k = record { sent = none; count = resolved 3; fil = root; dev = root }

query-past_end_example :
    (rest : List Request) × ((query 3 path greedy 0 2 root).requests
      ≡ asked path 2 root ∷ asked path 6 root ∷ rest)
    × ((asked path 6 root).size ≡ 2 ^ 64 - 1)
    × ((asked path 6 root).copied ≡ 2 ^ 32 - 1)
query-past_end_example = query-past_end path greedy 1 0 2 3 root refl refl refl (omega arith)

query-enough_example : query 5 path whole 0 2 root ≡ query 9 path whole 0 2 root
query-enough_example =
    query-enough path whole 5 9 0 2 root (omega arith) (omega arith) (omega arith)
