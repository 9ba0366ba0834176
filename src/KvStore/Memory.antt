-- ===== src/KvStore/Memory.antt =====
-- A database in memory that never fails: the assumptions on a database can be met.
use monomer.Prelude.{refl, none, ok}
use monomer.KvStore.{KvStore, IsReliable, Entries, lookup, select, in_range, apply}
use monomer.Prelude.{◌≡◌}

pub value_of {ℓ} : {A : Type ℓ} → (a b : A) → ok a ≡ ok b → b ≡ a
value_of a b e = cc

abbrev pub memory : KvStore
memory = record {
  Db = Entries;
  entries = λ d. d;
  get = λ d ops k. ok (lookup k (apply ops d));
  iterate = λ d ops lower upper. ok (select (in_range lower upper) (apply ops d));
  refuse = λ op. none;
  write = λ d ops. ok (apply ops d);
  close = λ d. none;
  get_sound = λ d ops k v e. value_of (lookup k (apply ops d)) v e;
  iterate_sound =
      λ d ops lower upper es e. value_of (select (in_range lower upper) (apply ops d)) es e;
  write_sound = λ d d' ops e. value_of (apply ops d) d' e;
}

pub memory-IsReliable : IsReliable memory
memory-IsReliable = record {
  get_works = λ d ops k. refl;
  iterate_works = λ d ops lower upper. refl;
  accepts = λ op. refl;
  write_works = λ d ops. (apply ops d, refl);
  closes = λ d. refl;
}
