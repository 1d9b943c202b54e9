-- ===== src/Proc/Names.antt =====
-- proc/name.c: the cache of port names and the resolution of paths. A name is the list of its bytes
-- without the terminating 0, and a chain of entries a list, the newest entry first. The two critical
-- sections of proc_portRegister run without another call in between. What proc_send brings back in
-- each round is an argument. The calls that only pack a message are not modelled.
mod Tests
pub mod Chain
pub mod Register
pub mod Prefix
pub mod Servers
use phoenix_rtos_kernel.Base.{
  ℕ, zero, suc, ◌+◌, ◌-◌, ◌*◌, ◌/◌, ◌%◌, ◌^◌, Bool, true, false, ◌&&◌, not, Option, none, some,
  List, [], ◌∷◌, ltb, leb, ◌==◌, if◌then◌else◌, upd, length, get_or, take, drop, Result, eok, fails,
  Error, einval, enomem, eexist, enoent,
}

pub record Oid : Type 0 where
  pub port : ℕ
  pub id : ℕ

pub record Entry : Type 0 where
  pub name : List ℕ
  pub oid : Oid

pub record Names : Type 0 where
  pub root_registered : Bool
  pub root_oid : Oid
  pub dcache : ℕ → List Entry

-- `hal_strcmp(a, b) == 0`
abbrev pub name_eq : List ℕ → List ℕ → Bool
name_eq [] [] = true
name_eq (c ∷ cs) (d ∷ ds) = (c == d) && name_eq cs ds
name_eq _ _ = false

-- The loop of dcache_strHash, from the hash so far.
abbrev pub hash_loop : ℕ → List ℕ → ℕ
hash_loop hash [] = hash
hash_loop hash (c ∷ cs) = hash_loop ((hash + c * 16 + c / 16 * 11) % 2 ^ 32) cs

pub str_hash : List ℕ → ℕ
str_hash name = hash_loop 0 name % 32

-- The walk along a chain in _dcache_entryLookup
abbrev pub lookup_loop : List Entry → List ℕ → Option Oid
lookup_loop [] name = none
lookup_loop (e ∷ es) name = if name_eq e.name name then some e.oid else lookup_loop es name

-- _dcache_entryLookup under the hash of the name: the `oid` of the entry
abbrev pub entry_lookup : Names → List ℕ → Option Oid
entry_lookup s name = lookup_loop (s.dcache (str_hash name)) name

abbrev pub is_root : List ℕ → Bool
is_root name = name_eq name (47 ∷ [])

-- The new entry; `old` is what its memory held, which stays in the id when none is given.
abbrev pub new_entry : List ℕ → ℕ → Option ℕ → ℕ → Entry
new_entry name port oid old = record {
  name = name;
  oid = record { port = port; id = elim oid [ some i ↦ i | none ↦ old ] };
}

-- proc_portRegister; `oid` is the id that it points to, if any; `old` is what the memory of the new
-- entry holds, if there is memory.
pub port_register : ℕ → List ℕ → Option ℕ → Option ℕ → Names → Result × Names
port_register port name oid old s = elim (entry_lookup s name) [
  | some o ↦ (fails eexist, s)
  | none ↦
      if is_root name
      then (
        eok,
        record s {
          root_oid = record { port = port; id = elim oid [ some i ↦ i | none ↦ s.root_oid.id ] };
          root_registered = true;
        },
      )
      else elim old [
        | none ↦ (fails enomem, s)
        | some o ↦
            let entry : Entry = new_entry name port oid o in
            let hash = str_hash name in
            (eok, record s { dcache = upd s.dcache hash (entry ∷ s.dcache hash) })
      ]
]

-- The rest of a chain behind an entry that stays, without the entry of the name.
abbrev pub unlink_entry : List Entry → List ℕ → List Entry
unlink_entry [] name = []
unlink_entry (e ∷ es) name = if name_eq e.name name then es else e ∷ unlink_entry es name

-- The chain that proc_portUnregister leaves: `name_common.dcache[hash] = NULL` for the first entry.
abbrev pub unregister_chain : List Entry → List ℕ → List Entry
unregister_chain [] name = []
unregister_chain (e ∷ es) name = if name_eq e.name name then [] else e ∷ unlink_entry es name

pub port_unregister : List ℕ → Names → Names
port_unregister name s =
    let hash = str_hash name in
    record s { dcache = upd s.dcache hash (unregister_chain (s.dcache hash) name) }

-- `while (pptr[--i] != '/');`, 0 where it would go on in front of the name
abbrev pub slash_before : List ℕ → ℕ → ℕ
slash_before name zero = 0
slash_before name (suc i) = if get_or name i 0 == 47 then i else slash_before name i

-- The search for a starting point: the longest cached part in front of a slash. Each round goes
-- further to the front, so `len` rounds are enough.
pub start_loop : ℕ → Names → List ℕ → ℕ → Oid → ℕ × Oid
start_loop zero s name i srv = (i, srv)
start_loop (suc fuel) s name i srv =
    let j = slash_before name i in
    let rest = start_loop fuel s name j srv in
    if leb i 1
    then (i, srv)
    else if j == 0
    then (0, srv)
    else elim (entry_lookup s (take j name)) [ some o ↦ (j, o) | none ↦ rest ]

-- What a server answers: the bytes that it has resolved, or an error number.
pub data Count : Type 0 where
  resolved refused : ℕ → Count

-- The outcome of proc_send, an error number or none, and `msg->o.lookup` afterwards
pub record Reply : Type 0 where
  pub sent : Option ℕ
  pub count : Count
  pub fil : Oid
  pub dev : Oid

-- What proc_send is called with: the server, and the bytes given with their count
pub record Request : Type 0 where
  pub dir : Oid
  pub size : ℕ
  pub copied : ℕ
  pub data_of : List ℕ

-- The value of `err`: an error of the kernel, or one passed on from proc_send or a server
pub data Status : Type 0 where
  done : Status
  failed : Error → Status
  passed_on : ℕ → Status

pub record Answer : Type 0 where
  pub err : Status
  pub fil : Oid
  pub dev : Oid
  pub requests : List Request

abbrev pub no_oid : Oid
no_oid = record { port = 0; id = 0 }

-- The end of a round of the loop, with the requests so far
abbrev pub answer : Status → Reply → List Request → Answer
answer st r requests = record { err = st; fil = r.fil; dev = r.dev; requests = requests }

abbrev pub with_request : Request → Answer → Answer
with_request q a = record a { requests = q ∷ a.requests }

-- The loop that queries the servers, from the round `k` on. A round that goes on moves `i` by at least
-- one, and past the end it fails, so there are at most `len + 2` rounds.
pub query : ℕ → List ℕ → (ℕ → Reply) → ℕ → ℕ → Oid → Answer
query zero name replies k i srv = record {
  err = failed einval;
  fil = no_oid;
  dev = no_oid;
  requests = [];
}
query (suc fuel) name replies k i srv =
    let len = length name in
    let r = replies k in
    let q : Request = record {
      dir = srv;
      size = (len + 2 ^ 64 - i) % 2 ^ 64;
      copied = (len + 2 ^ 64 - i) % 2 ^ 64 % 2 ^ 32;
      data_of = drop (i + 1) name;
    } in
    with_request q (elim r.sent [
      | some e ↦ answer (passed_on e) r []
      | none ↦ elim r.count [
        | refused e ↦ answer (passed_on e) r []
        | resolved n ↦
            let rest = query fuel name replies (k + 1) (i + n + 1) r.dev in
            if ltb len (i + n)
            then answer (failed einval) r []
            else if i + n + 1 == len
            then answer done r []
            else rest
      ]
    ])

abbrev pub at_once : Status → Oid → Answer
at_once st o = record { err = st; fil = o; dev = o; requests = [] }

-- proc_portLookup with both results asked for. `heap` says whether there is memory for a long name,
-- and `mem` for the message.
pub port_lookup : List ℕ → Bool → Bool → (ℕ → Reply) → Names → Answer
unfolding start_loop query
port_lookup name heap mem replies s =
    let len = length name in
    let (i, srv) = start_loop len s name len s.root_oid in
    if is_root name
    then at_once (if s.root_registered then done else failed einval) s.root_oid
    else elim (entry_lookup s name) [
      | some o ↦ at_once done o
      | none ↦
          if not (get_or name 0 0 == 47)
          then at_once (failed enoent) no_oid
          else if not (ltb len 16) && not heap
          then at_once (failed enomem) no_oid
          else if not s.root_registered && (i == 0)
          then at_once (failed einval) no_oid
          else if not mem
          then at_once (failed enomem) no_oid
          else query (len + 2) name replies 0 i srv
    ]
