-- ===== src/Posix/Files/Tests.antt =====
-- The descriptors of posix/posix.c on concrete inputs.
use phoenix_rtos_kernel.Base.{◌+◌, ◌<◌, ◌^◌, ◌≡◌, refl, false, arith}
use phoenix_rtos_kernel.Posix.Files.{
  Files, descriptor, file_deref, free_slot, new_file, close, dup, dup2,
}
use phoenix_rtos_kernel.Posix.Files.Calls.{IsCounted}
use phoenix_rtos_kernel.Posix.Files.Keep.{}
use phoenix_rtos_kernel.Posix.Files.Safety.{Reaches, starts, creates, dups, closes, files_safe}

abbrev no_files : Files
no_files = record { maxfd = 3; file = λ fd. 0; flags = λ fd. 0; refs = λ f. 0; alive = λ f. false }

abbrev one_file : Files
one_file = (new_file no_files 0 7).1

abbrev two_descriptors : Files
two_descriptors = (dup one_file 0).1

abbrev one_left : Files
one_left = (close two_descriptors 0).1

one_left-refs : one_left.refs 7 ≡ 1
unfolding new_file free_slot dup close file_deref
one_left-refs = refl

one_left-last : ((close one_left 1).1).alive 7 ≡ false
unfolding new_file free_slot dup close file_deref
one_left-last = refl

one_left-dup : (dup one_left 1).0 ≡ descriptor 0
unfolding new_file free_slot dup close file_deref
one_left-dup = refl

one_left-dup2 : (dup2 one_left 1 3).0 ≡ descriptor 3
unfolding new_file free_slot dup close file_deref dup2
one_left-dup2 = refl

one_file-few : one_file.refs (one_file.file 0) + 1 < 2 ^ 32
unfolding new_file free_slot
one_file-few = omega arith

one_left-Reaches : Reaches one_left (λ f. 0)
one_left-Reaches =
    closes two_descriptors (λ f. 0) 0
      (dups one_file (λ f. 0) 0
        (creates no_files (λ f. 0) 0 7 (starts no_files (omega arith) refl refl) (omega arith) refl)
        one_file-few)

files_safe_example : IsCounted one_left (λ f. 0)
files_safe_example = files_safe one_left (λ f. 0) one_left-Reaches
