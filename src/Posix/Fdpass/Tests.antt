-- ===== src/Posix/Fdpass/Tests.antt =====
-- The passing of descriptors of posix/fdpass.c on concrete inputs.
use phoenix_rtos_kernel.Posix.Fdpass.Given.{flat, Unpacked, no_entry}
use phoenix_rtos_kernel.Base.{
  true, ◌<◌, ◌+◌, ◌⊎◌, ◌≤◌, ◌≡◌, ◌==◌, refl, false, List, [], ◌∷◌, if◌then◌else◌, arith,
}
use phoenix_rtos_kernel.Posix.Files.{Files, file_deref, add_open_file, free_slot}
use phoenix_rtos_kernel.Posix.Files.Count.{count}
use phoenix_rtos_kernel.Posix.Files.Calls.{IsCounted}
use phoenix_rtos_kernel.Posix.Fdpass.{
  Pack, cmsg_len, length, unpack_loop, fdpass_unpack, discard_pack, fdpass_discard,
}
use phoenix_rtos_kernel.Posix.Fdpass.Held.{holding}
use phoenix_rtos_kernel.Posix.Fdpass.Whole.{fdpass_unpack_lem}

-- File 7 is in one pack, and in no table.
abbrev packed_file : Files
packed_file = record {
  maxfd = 1;
  file = λ fd. 0;
  flags = λ fd. 0;
  refs = λ f. if f == 7 then 1 else 0;
  alive = λ f. f == 7;
}

abbrev one_pack : List Pack
one_pack = ((7, 0) ∷ []) ∷ []

packed_file-IsCounted : IsCounted packed_file (holding (λ f. 0) one_pack)
unfolding count
packed_file-IsCounted = record {
  bounded = omega arith;
  live = λ f nz a. ground arith;
  dead = λ f nz a. ground arith;
}

one_pack-descriptor : (fdpass_unpack packed_file one_pack 16).2 ≡ 0 ∷ []
unfolding fdpass_unpack unpack_loop add_open_file free_slot
one_pack-descriptor = refl

one_pack-freed : (fdpass_discard packed_file one_pack).alive 7 ≡ false
unfolding fdpass_discard discard_pack file_deref
one_pack-freed = refl

fdpass_unpack_lem_example :
    let r = fdpass_unpack packed_file one_pack 16 in
    IsCounted r.0 (holding (λ f. 0) r.1)
    × Unpacked r.0 ((7, 0) ∷ []) r.2 (flat r.1)
    × (r.3 ≡ cmsg_len (length r.2))
    × (r.3 ≤ 16)
    × ((no_entry r.1 ≡ true) ⊎ (16 < cmsg_len (length r.2 + 1)))
fdpass_unpack_lem_example =
    fdpass_unpack_lem packed_file (λ f. 0) one_pack 16 (((λ e. omega (arith, e)), tt), tt)
      packed_file-IsCounted
