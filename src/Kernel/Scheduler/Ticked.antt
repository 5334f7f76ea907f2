-- ===== src/Kernel/Scheduler/Ticked.antt =====
-- What `tm_schedulerRR` does before it looks for the next thread: saving the context and counting.
use task_mate.Common.{
  ℕ, ◌+◌, ◌<◌, ◌≡◌, sym, ap, ◌∙◌, inl, inr, Bool, some, arith, ◌==◌, if◌then◌else◌, u8, Bool-cases,
  some_inj, length-map, get_elem?-map-some,
}
use task_mate.Kernel.Threads.{Thread, Db, get_pointer, put, tick, tick_stc}
use task_mate.Kernel.Threads.Frame.{
  get_pointer-eq, get_pointer-lt, get_pointer-put, get_pointer-some, mod_thread_count-put,
}
use task_mate.Kernel.Scheduler.{
  Kernel, count_tick, canaries_intact, mod_thread_count, runnable, RunLevel,
}
use task_mate.Kernel.Threads.Valid.{
  IsThread, IsValid, put-IsValid, tick_stc-IsValid, get_pointer-IsThread,
}
use task_mate.Kernel.Scheduler.Select.{CanRun, IsNext, distance}

-- The thread that `current` names keeps its context and the time of the switch.
abbrev pub saved : ℕ → ℕ → Thread → Thread
saved context now t = record t { context = context; last_stop_tick_100us = now }

abbrev pub is_tenth : Kernel → Bool
is_tenth k = u8 (k.scheduler_stc_tick_count + 1) == 10

-- What has become of the thread with number `id` when the loop starts.
abbrev pub before : Kernel → ℕ → ℕ → ℕ → Thread → Thread
before k context now id t =
    let t' = if id == k.db.current then saved context now t else t in
    if is_tenth k then tick t' else t'

-- The state when the loop starts: the context saved and the interrupt counted.
unfoldable pub ticked : Kernel → ℕ → ℕ → Thread → Kernel
ticked k context now t = count_tick (record k { db = put k.db k.db.current (saved context now t) })

pub tick_keeps :
    (t : Thread)
    → ((tick t).run_level ≡ t.run_level)
      × ((tick t).stack ≡ t.stack)
      × ((tick t).stack_size ≡ t.stack_size)
      × ((tick t).status ≡ t.status)
      × ((tick t).context ≡ t.context)
unfolding tick
tick_keeps t = ground arith

get_pointer-tick_stc :
    (db : Db) (id : ℕ) {u : Thread}
    → get_pointer db id ≡ some u
    → get_pointer (tick_stc db) id ≡ some (tick u)
unfolding tick_stc
get_pointer-tick_stc db id e =
    get_pointer-eq (tick_stc db) id
    ∙ get_elem?-map-some tick db.threads id (sym (get_pointer-eq db id) ∙ e)

get_pointer-count_tick :
    (k : Kernel) (id : ℕ) {u : Thread}
    → get_pointer k.db id ≡ some u
    → get_pointer (count_tick k).db id ≡ some (if is_tenth k then tick u else u)
unfolding count_tick
get_pointer-count_tick k id f = ground (arith, get_pointer-tick_stc k.db id f)

count_tick_keeps :
    (k : Kernel)
    → (mod_thread_count (count_tick k).db ≡ mod_thread_count k.db)
      × ((count_tick k).db.current ≡ k.db.current)
      × ((count_tick k).scheduler_run_level ≡ k.scheduler_run_level)
      × (k.scheduler_stc_tick_count < 10 → (count_tick k).scheduler_stc_tick_count < 10)
unfolding count_tick tick_stc
count_tick_keeps k = ground (arith, length-map tick k.db.threads)

count_tick-IsValid : (k : Kernel) → IsValid k.db → IsValid (count_tick k).db
unfolding count_tick
count_tick-IsValid k v = elim (Bool-cases (is_tenth k)) [
  | inl e ↦ rw e (tick_stc-IsValid k.db v)
  | inr e ↦ rw e v
]

pub runnable-before :
    (k : Kernel) (context now id : ℕ) (level : RunLevel) (u : Thread)
    → runnable level (before k context now id u) ≡ runnable level u
unfolding runnable
runnable-before k context now id level u =
    ground (arith, tick_keeps (saved context now u), tick_keeps u)

pub canaries-before :
    (k : Kernel) (context now id : ℕ) (u : Thread)
    → canaries_intact (before k context now id u) ≡ canaries_intact u
unfolding canaries_intact
canaries-before k context now id u = ground (arith, tick_keeps (saved context now u), tick_keeps u)

pub same_distance :
    (db db' : Db) (current i : ℕ)
    → mod_thread_count db ≡ mod_thread_count db'
    → distance db current i ≡ distance db' current i
same_distance db db' current i e = ground arith

saved-IsThread : (context now : ℕ) (t : Thread) → IsThread t → IsThread (saved context now t)
saved-IsThread context now t w = omega arith

module _ (k : Kernel) (context now : ℕ) {t : Thread}
    (e : get_pointer k.db k.db.current ≡ some t) where
  get_pointer-put_db :
      (id : ℕ) {u : Thread}
      → get_pointer k.db id ≡ some u
      → get_pointer (put k.db k.db.current (saved context now t)) id
        ≡ some (if id == k.db.current then saved context now u else u)
  get_pointer-put_db id {u} f =
      ground (
        arith,
        get_pointer-put k.db k.db.current id (saved context now t) (get_pointer-lt k.db _ e),
      )

  pub get_pointer-ticked :
      (id : ℕ) {u : Thread}
      → get_pointer k.db id ≡ some u
      → get_pointer (ticked k context now t).db id ≡ some (before k context now id u)
  unfolding ticked
  get_pointer-ticked id f =
      get_pointer-count_tick (record k { db = put k.db k.db.current (saved context now t) }) id
        (get_pointer-put_db id f)

  pub ticked_keeps :
      (mod_thread_count (ticked k context now t).db ≡ mod_thread_count k.db)
      × ((ticked k context now t).db.current ≡ k.db.current)
      × ((ticked k context now t).scheduler_run_level ≡ k.scheduler_run_level)
      × (k.scheduler_stc_tick_count < 10 → (ticked k context now t).scheduler_stc_tick_count < 10)
  unfolding ticked
  ticked_keeps =
      let k' : Kernel = record k { db = put k.db k.db.current (saved context now t) } in
      let (a, b, c, d) = count_tick_keeps k' in
      (a ∙ mod_thread_count-put k.db k.db.current (saved context now t), b, c, d)

  pub ticked-IsValid : IsValid k.db → IsValid (ticked k context now t).db
  unfolding ticked
  ticked-IsValid v = count_tick-IsValid _ (
      put-IsValid k.db k.db.current v
        (saved-IsThread context now t (get_pointer-IsThread k.db _ v e)))

  pub CanRun-ticked :
      (i : ℕ)
      → CanRun k.db k.scheduler_run_level i
      → CanRun (ticked k context now t).db (ticked k context now t).scheduler_run_level i
  CanRun-ticked i (u, f, r) = (
    before k context now i u,
    get_pointer-ticked i f,
    ap (λ l. runnable l (before k context now i u)) ticked_keeps.2
        ∙ runnable-before k context now i k.scheduler_run_level u
        ∙ r,
  )

  pub CanRun-back :
      (i : ℕ)
      → i < mod_thread_count k.db
      → CanRun (ticked k context now t).db (ticked k context now t).scheduler_run_level i
      → CanRun k.db k.scheduler_run_level i
  CanRun-back i l (w, g, r) =
      let (u, f) = get_pointer-some k.db i l in
      (
        u,
        f,
        sym (runnable-before k context now i k.scheduler_run_level u)
            ∙ sym (ap (λ l. runnable l (before k context now i u)) ticked_keeps.2)
            ∙ ap (runnable _) (some_inj (sym (get_pointer-ticked i f) ∙ g))
            ∙ r,
      )

  pub IsNext-ticked :
      (next : ℕ)
      → IsNext
          (ticked k context now t).db
          (ticked k context now t).scheduler_run_level
          k.db.current
          next
      → IsNext k.db k.scheduler_run_level k.db.current next
  IsNext-ticked next n = record {
    in_range = omega (arith, n.in_range, ticked_keeps.0);
    can_run = CanRun-back next (omega (arith, n.in_range, ticked_keeps.0)) n.can_run;
    nearest = λ i l c. omega (
      arith,
      n.nearest i (omega (arith, ticked_keeps.0)) (CanRun-ticked i c),
      same_distance (ticked k context now t).db k.db k.db.current i ticked_keeps.0,
      same_distance (ticked k context now t).db k.db k.db.current next ticked_keeps.0,
    );
  }
