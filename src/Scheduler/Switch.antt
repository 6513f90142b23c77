-- ===== src/Scheduler/Switch.antt =====
-- `do_switch`: what a switch does to the two processes, to the stack pointers and to the address space.
use stak_os.Base.{
  ℕ, ◌≡◌, ◌≢◌, inl, inr, refl, sym, ap, ◌∙◌, true, false, ◌==◌, if◌then◌else◌, ne→==, ==→eq, ==→ne,
  Bool-cases,
}
use stak_os.Process.{Process, Procs, put, ready, running, state_eq}
use stak_os.Scheduler.{Sched, set_state, context_switch, do_switch}
use stak_os.Scheduler.Queue.{put_self, put_ne}

-- The switch from the current process to `next`.
pub record Switched (s : Sched) (next : ℕ) (s' : Sched) : Type 0 where
  pub current : s'.current_process ≡ next
  pub runs : (s'.procs next).state ≡ running
  pub quantum : (s'.procs next).ticks_remaining ≡ (s.procs next).priority
  pub stack : s'.esp0 ≡ (s.procs next).kernel_stack_top
  pub space : s'.cr3 ≡ (s.procs next).cr3
  pub resumes : s'.esp ≡ (s.procs next).esp
  pub saved : (s'.procs s.current_process).esp ≡ s.esp
  pub preempted :
      (s.procs s.current_process).state ≡ running → (s'.procs s.current_process).state ≡ ready
  pub others : (x : ℕ) → x ≢ next → x ≢ s.current_process → s'.procs x ≡ s.procs x
  pub waits : (x : ℕ) → x ≢ next → (s.procs x).state ≡ ready → (s'.procs x).state ≡ ready
  pub links : (x : ℕ) → (s'.procs x).next ≡ (s.procs x).next
  pub head : s'.queue_head ≡ s.queue_head
  pub tail : s'.queue_tail ≡ s.queue_tail
  pub size : s'.queue_size ≡ s.queue_size
  pub zombies : s'.zombie_head ≡ s.zombie_head

abbrev started : Process → Process
started p = record p { state = running; ticks_remaining = p.priority }

module _ (s : Sched) (next : ℕ) (ne : s.current_process ≢ next) where
  abbrev old : ℕ
  old = s.current_process

  abbrev demoted : Procs
  demoted = if state_eq (s.procs old).state running then set_state s.procs old ready else s.procs

  abbrev running_next : Procs
  running_next = set_state demoted next running

  abbrev promoted : Procs
  promoted =
      put running_next next
        (record (running_next next) { ticks_remaining = (running_next next).priority })

  abbrev final : Procs
  final = put promoted old (record (promoted old) { esp = s.esp })

  demoted-ne : (x : ℕ) → x ≢ old → demoted x ≡ s.procs x
  demoted-ne x out = elim (Bool-cases (state_eq (s.procs old).state running)) [
    | inl e ↦ rw e (put_ne s.procs old x _ out)
    | inr e ↦ rw e refl
  ]

  promoted-next : promoted next ≡ started (s.procs next)
  promoted-next =
      put_self running_next next _
      ∙ ap (λ (p : Process). record p { ticks_remaining = p.priority })
          (put_self demoted next _
            ∙ ap (λ (p : Process). record p { state = running })
                (demoted-ne next (λ e. ne (sym e))))

  promoted-ne : (x : ℕ) → x ≢ next → promoted x ≡ demoted x
  promoted-ne x out = put_ne running_next next x _ out ∙ put_ne demoted next x _ out

  final-next : final next ≡ started (s.procs next)
  final-next = put_ne promoted old next _ (λ e. ne (sym e)) ∙ promoted-next

  final-old : final old ≡ record (demoted old) { esp = s.esp }
  final-old =
      put_self promoted old _ ∙ ap (λ (p : Process). record p { esp = s.esp }) (promoted-ne old ne)

  final-other : (x : ℕ) → x ≢ next → x ≢ old → final x ≡ s.procs x
  final-other x out out' = put_ne promoted old x _ out' ∙ promoted-ne x out ∙ demoted-ne x out'

  demoted-next_link : (demoted old).next ≡ (s.procs old).next
  demoted-next_link = elim (Bool-cases (state_eq (s.procs old).state running)) [
    | inl e ↦
        rw e (ap (λ p. p.next) (put_self s.procs old (record (s.procs old) { state = ready })))
    | inr e ↦ rw e refl
  ]

  final-links : (x : ℕ) → (final x).next ≡ (s.procs x).next
  final-links x = elim (Bool-cases (x == old)) [
    | inl e ↦ rw (==→eq x old e) (ap (λ p. p.next) final-old ∙ demoted-next_link)
    | inr e ↦ elim (Bool-cases (x == next)) [
      | inl n ↦ rw (==→eq x next n) (ap (λ p. p.next) final-next)
      | inr n ↦ ap (λ p. p.next) (final-other x (==→ne x next n) (==→ne x old e))
    ]
  ]

  demoted-ready : (s.procs old).state ≡ running → (demoted old).state ≡ ready
  demoted-ready e =
      let test : state_eq (s.procs old).state running ≡ true = ap (λ st. state_eq st running) e in
      rw test (ap (λ p. p.state) (put_self s.procs old (record (s.procs old) { state = ready })))

  final-ready : (x : ℕ) → x ≢ next → (s.procs x).state ≡ ready → (final x).state ≡ ready
  final-ready x out e = elim (Bool-cases (x == old)) [
    | inl t ↦
        let was : (s.procs old).state ≡ ready =
          ap (λ k. (s.procs k).state) (sym (==→eq x old t)) ∙ e in
        let test : state_eq (s.procs old).state running ≡ false =
          ap (λ st. state_eq st running) was in
        rw (==→eq x old t) (ap (λ p. p.state) final-old ∙ (rw test was))
    | inr t ↦ ap (λ p. p.state) (final-other x out (==→ne x old t)) ∙ e
  ]

  pub do_switch-Switched : Switched s next (do_switch s next)
  unfolding do_switch context_switch
  do_switch-Switched = rw (ne→== old next ne) (record {
    current = refl;
    runs = ap (λ p. p.state) final-next;
    quantum = ap (λ p. p.ticks_remaining) final-next;
    stack = ap (λ p. p.kernel_stack_top) promoted-next;
    space = ap (λ p. p.cr3) final-next;
    resumes = ap (λ p. p.esp) final-next;
    saved = ap (λ p. p.esp) final-old;
    preempted = λ e. ap (λ p. p.state) final-old ∙ demoted-ready e;
    others = final-other;
    waits = final-ready;
    links = final-links;
    head = refl;
    tail = refl;
    size = refl;
    zombies = refl;
  })
