-- ===== src/Engine/FileReadObject/InMemory.antt =====
-- A PhysFS whose one file is a list of bytes.
use kge.Prelude.{
  ℕ, zero, suc, ◌+◌, ◌-◌, ◌*◌, ◌≤◌, ◌<◌, ◌≡◌, refl, Bool, true, false, some, List, arith, length,
  take, drop, leb, if◌then◌else◌, le→leb, lt→leb, ◌^◌, inl,
}
use kge.Engine.FileReadObject.{Physfs, Documented}

-- The contents, and the position in them.
pub record File : Type 0 where
  pub contents : List ℕ
  pub position : ℕ

read_objects : File → ℕ → ℕ → ℕ × List ℕ × File
read_objects f size count =
    if leb (size * count) (length f.contents - f.position)
    then (
      count,
      take (size * count) (drop f.position f.contents),
      record f { position = f.position + size * count },
    )
    else (0, drop f.position f.contents, record f { position = length f.contents })

seek_to : File → ℕ → Bool × File
seek_to f position =
    if leb position (length f.contents)
    then (true, record f { position = position })
    else (false, f)

pub in_memory : List ℕ → Physfs File
unfolding read_objects seek_to
in_memory bytes = record {
  open_read = λ name. some (record { contents = bytes; position = 0 });
  read = read_objects;
  seek = seek_to;
  tell = λ f. f.position;
  file_length = λ f. length f.contents;
}

positive : (size count at end : ℕ) → at ≤ end → end < at + size * count → 0 < count
positive size zero at end inside h = absurd (omega arith)
positive size (suc count) at end inside h = omega arith

pub in_memory-Documented :
    (bytes : List ℕ) (f : File)
    → length f.contents < 2 ^ 63
    → f.position ≤ length f.contents
    → Documented (in_memory bytes) f
unfolding in_memory read_objects seek_to
in_memory-Documented bytes f small inside = record {
  length_fits = small;
  inside = inside;
  reads = λ size count positive_size h.
      (let fits : leb (size * count) (length f.contents - f.position) ≡ true =
          le→leb _ _ (omega (arith, h)) in
        rw fits (refl, refl));
  reads_less = λ size count positive_size h.
      (let out : leb (size * count) (length f.contents - f.position) ≡ false =
          lt→leb _ _ (omega (arith, h)) in
        rw out (inl (positive size count _ _ inside h)));
  seeks = λ position h. ground (arith, h);
  seeks_outside = λ position h. ground (arith, h);
}
