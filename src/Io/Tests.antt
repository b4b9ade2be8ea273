-- ===== src/Io/Tests.antt =====
-- Runs of io.c.
use planck.Prelude.{
  ℕ, ◌≡◌, refl, some, true, Bytes, List, codes, [], ◌∷◌, ◌++◌, replicate, length-replicate,
  length-append, arith, ltb, if◌then◌else◌,
}
use planck.Io.{
  Freads, more, eof, read_all, write_contents, write_loop, mkdir_parents, Mkdir, made, chunk_size,
}
use planck.Io.Stream.{Terminated, read_all-Terminated}
use planck.Io.Copy.{
  Reads, data_block, end_of_file, Written, wrote, copy_file_loop_unlinking, already_exists, opened,
  success,
}
use planck.Io.Copy.Complete
use planck.Io.Copy.Complete.{copy_file_loop_lem, copy_file_loop_unlinking_lem}

abbrev full_chunk : Bytes
full_chunk = replicate chunk_size 7

abbrev some_stream : Freads
some_stream = more full_chunk (eof (codes "ab"))

read_all-Terminated_example : Terminated (full_chunk ++ codes "ab") (read_all some_stream)
read_all-Terminated_example =
    read_all-Terminated some_stream (length-replicate {A = ℕ} chunk_size 7, omega arith) refl
      (omega (arith, length-append full_chunk (codes "ab"), length-replicate {A = ℕ} chunk_size 7))

-- At most two bytes at a time.
abbrev two_at_once : ℕ → ℕ → ℕ
two_at_once round n = if ltb n 2 then n else 2

write_runs : write_contents 4 two_at_once (codes "abcde") ≡ some (codes "abcde")
unfolding write_contents write_loop
write_runs = refl

abbrev make : Bytes → List Bytes → List Bytes × Mkdir
make p ds = (p ∷ ds, made)

mkdir_parents_runs :
    mkdir_parents make (codes "/a/b") [] ≡ some (codes "/a/b" ∷ codes "/a" ∷ [], true)
unfolding mkdir_parents
mkdir_parents_runs = refl

abbrev some_reads : Reads
some_reads = data_block (codes "abc") (data_block (codes "d") end_of_file)

abbrev two_or_less : ℕ → ℕ → Written
two_or_less call n = wrote (two_at_once call n)

two_or_less-Takes : Complete.Takes two_or_less
two_or_less-Takes call n h = (two_at_once call n, refl, ground arith, ground arith)

copy_file_loop_unlinking_lem_example :
    copy_file_loop_unlinking 9 two_or_less true (some some_reads) already_exists true opened
    ≡ some (success (codes "abcd"))
copy_file_loop_unlinking_lem_example =
    copy_file_loop_unlinking_lem two_or_less two_or_less-Takes 9 some_reads (omega arith)
