-- ===== src/Kernel/Threads/Frame.antt =====
-- When a record of sys_threads.c is found, and what a write to one record leaves alone.
use task_mate.Common.{
  ℕ, ◌<◌, ◌≡◌, sym, ◌≢◌, none, some, arith, ℕ_discrete, ◌==◌, if◌then◌else◌, ==_iff, get_elem?,
  length-set, get_elem?-set_self, get_elem?-set_ne, get_elem?-some, get_elem?-none, get_elem?-lt,
}
use task_mate.Kernel.Threads.{Thread, Db, mod_thread_count, get_pointer, put}

pub get_pointer-eq : (db : Db) (id : ℕ) → get_pointer db id ≡ get_elem? db.threads id
unfolding get_pointer
get_pointer-eq db id = ground (arith, get_elem?-none db.threads id)

pub get_pointer-lt :
    (db : Db) (id : ℕ) {t : Thread} → get_pointer db id ≡ some t → id < mod_thread_count db
unfolding get_pointer
get_pointer-lt db id h = ground (arith, get_elem?-lt db.threads id)

pub get_pointer-some :
    (db : Db) (id : ℕ) → id < mod_thread_count db → (t : Thread) × (get_pointer db id ≡ some t)
get_pointer-some db id h =
    let (t, e) = get_elem?-some db.threads id h in (t, ground (arith, get_pointer-eq db id))

pub get_pointer-none : (db : Db) (id : ℕ) → ¬ (id < mod_thread_count db) → get_pointer db id ≡ none
unfolding get_pointer
get_pointer-none db id h = ground arith

pub mod_thread_count-put :
    (db : Db) (id : ℕ) (t : Thread) → mod_thread_count (put db id t) ≡ mod_thread_count db
mod_thread_count-put db id t = length-set db.threads id t

pub get_pointer-put_self :
    (db : Db) (id : ℕ) (t : Thread)
    → id < mod_thread_count db
    → get_pointer (put db id t) id ≡ some t
get_pointer-put_self db id t h =
    ground (arith, get_pointer-eq (put db id t) id, get_elem?-set_self db.threads id t h)

pub get_pointer-put_ne :
    (db : Db) (i j : ℕ) (t : Thread) → i ≢ j → get_pointer (put db i t) j ≡ get_pointer db j
get_pointer-put_ne db i j t h =
    ground
      (arith, get_pointer-eq (put db i t) j, get_pointer-eq db j, get_elem?-set_ne db.threads t h)

pub get_pointer-put :
    (db : Db) (i j : ℕ) (t : Thread)
    → i < mod_thread_count db
    → get_pointer (put db i t) j ≡ (if j == i then some t else get_pointer db j)
get_pointer-put db i j t h = elim (ℕ_discrete j i) [
  | yes e ↦ rw ((==_iff j i).1 e) (rw e (get_pointer-put_self db i t h))
  | no ne ↦ ground (arith, get_pointer-put_ne db i j t (λ q. ne (sym q)))
]
