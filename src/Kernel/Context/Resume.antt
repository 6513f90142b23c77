-- ===== src/Kernel/Context/Resume.antt =====
-- A process goes on as it stopped, and a new one starts at its entry point.
use stak_os.Base.{ℕ, ◌+◌, ◌-◌, ◌*◌, ◌%◌, ◌≤◌, ◌<◌, ◌≡◌, refl, ap, ◌∙◌, List, [], ◌∷◌, length, arith}
use stak_os.Base.Words.{u32_mod}
use stak_os.Memory.{Mem, load32, store32}
use stak_os.Memory.Writes.{writes, Aligned, load32-writes}
use stak_os.Kernel.{Image}
use stak_os.Kernel.Create.{push_words, first_frame}
use stak_os.Kernel.Context.{Context, save_context, restore_context}

-- Where the words go, with `base` the stack pointer behind them.
abbrev slots : (base : ℕ) → List ℕ → List (ℕ × ℕ)
slots base [] = []
slots base (w ∷ ws) = (base + 4 * length ws, w) ∷ slots base ws

push_words_lem :
    (ws : List ℕ) (m : Mem) (base top : ℕ)
    → top ≡ base + 4 * length ws
    → push_words m top ws ≡ (base, writes m (slots base ws))
unfolding push_words
push_words_lem [] m base top e = ap (λ b. (b, m)) (omega (arith, e))
push_words_lem (w ∷ ws) m base top e =
    let below : top - 4 ≡ base + 4 * length ws = omega (arith, e) in
    rw below (push_words_lem ws (store32 m (base + 4 * length ws) w) base _ refl)

slots-Aligned : (ws : List ℕ) (base : ℕ) → base % 4 ≡ 0 → Aligned (slots base ws)
slots-Aligned [] base e = tt
slots-Aligned (w ∷ ws) base e = (omega (arith, e), slots-Aligned ws base e)

Context-ext :
    (c d : Context)
    → c.edi ≡ d.edi
    → c.esi ≡ d.esi
    → c.ebp ≡ d.ebp
    → c.ebx ≡ d.ebx
    → c.edx ≡ d.edx
    → c.ecx ≡ d.ecx
    → c.eax ≡ d.eax
    → c.eflags ≡ d.eflags
    → c.eip ≡ d.eip
    → c.esp ≡ d.esp
    → c ≡ d
Context-ext c d e0 e1 e2 e3 e4 e5 e6 e7 e8 e9 = λ i. record {
  edi = e0 i;
  esi = e1 i;
  ebp = e2 i;
  ebx = e3 i;
  edx = e4 i;
  ecx = e5 i;
  eax = e6 i;
  eflags = e7 i;
  eip = e8 i;
  esp = e9 i;
}

-- Registers of 32 bits.
pub record IsContext (c : Context) : Type 0 where
  pub edi_word : c.edi < u32_mod
  pub esi_word : c.esi < u32_mod
  pub ebp_word : c.ebp < u32_mod
  pub ebx_word : c.ebx < u32_mod
  pub edx_word : c.edx < u32_mod
  pub ecx_word : c.ecx < u32_mod
  pub eax_word : c.eax < u32_mod
  pub eflags_word : c.eflags < u32_mod
  pub eip_word : c.eip < u32_mod
  pub esp_room : 36 ≤ c.esp
  pub esp_aligned : c.esp % 4 ≡ 0

-- With registers of 32 bits and a stack pointer at a multiple of 4 with room for nine words, the
-- registers that `context_switch` takes from the stack are those that it has put there.
pub restore-save :
    (m : Mem) (c : Context)
    → IsContext c
    → (let (esp, m') = save_context m c in restore_context m' esp ≡ c)
unfolding save_context restore_context
restore-save m c v =
    let base = c.esp - 36 in
    let ws : List ℕ =
      c.eip ∷ c.eflags ∷ c.eax ∷ c.ecx ∷ c.edx ∷ c.ebx ∷ c.ebp ∷ c.esi ∷ c.edi ∷ [] in
    let al : base % 4 ≡ 0 = omega (arith, v.esp_aligned, v.esp_room) in
    let word =
      λ (b : ℕ) (q : b % 4 ≡ 0). load32-writes (slots base ws) m b (slots-Aligned ws base al) q in
    rw (push_words_lem ws m base c.esp (omega (arith, v.esp_room))) (
      Context-ext _ c (word base al ∙ ground (arith, v.edi_word))
        (word (base + 4) (omega (arith, al)) ∙ ground (arith, v.esi_word))
        (word (base + 8) (omega (arith, al)) ∙ ground (arith, v.ebp_word))
        (word (base + 12) (omega (arith, al)) ∙ ground (arith, v.ebx_word))
        (word (base + 16) (omega (arith, al)) ∙ ground (arith, v.edx_word))
        (word (base + 20) (omega (arith, al)) ∙ ground (arith, v.ecx_word))
        (word (base + 24) (omega (arith, al)) ∙ ground (arith, v.eax_word))
        (word (base + 28) (omega (arith, al)) ∙ ground (arith, v.eflags_word))
        (word (base + 32) (omega (arith, al)) ∙ ground (arith, v.eip_word))
        (omega (arith, v.esp_room)))

-- On the stack that `process_create` builds at a top at a multiple of 4 with room for ten words, the
-- first switch to the process finds 0 in the general registers, interrupts enabled, the entry point to
-- return to, and behind it `process_exit` as the return address of the entry function.
pub first_frame-starts :
    (image : Image) (m : Mem) (top entry : ℕ)
    → 40 ≤ top
    → top % 4 ≡ 0
    → entry < u32_mod
    → image.process_exit_at < u32_mod
    → let (esp, m') = push_words m top (first_frame image entry) in
      (restore_context m' esp ≡ record {
        edi = 0;
        esi = 0;
        ebp = 0;
        ebx = 0;
        edx = 0;
        ecx = 0;
        eax = 0;
        eflags = 0x202;
        eip = entry;
        esp = top - 4;
      })
      × (load32 m' (top - 4) ≡ image.process_exit_at)
unfolding restore_context
first_frame-starts image m top entry room al ew xw =
    let base = top - 40 in
    let ws : List ℕ = first_frame image entry in
    let al' : base % 4 ≡ 0 = omega (arith, al, room) in
    let word =
      λ (b : ℕ) (q : b % 4 ≡ 0). load32-writes (slots base ws) m b (slots-Aligned ws base al') q in
    let there : top - 4 ≡ base + 36 = omega (arith, room) in
    rw (push_words_lem ws m base top (omega (arith, room)), there)
      (
        Context-ext _ _ (word base al' ∙ ground arith)
            (word (base + 4) (omega (arith, al')) ∙ ground arith)
            (word (base + 8) (omega (arith, al')) ∙ ground arith)
            (word (base + 12) (omega (arith, al')) ∙ ground arith)
            (word (base + 16) (omega (arith, al')) ∙ ground arith)
            (word (base + 20) (omega (arith, al')) ∙ ground arith)
            (word (base + 24) (omega (arith, al')) ∙ ground arith)
            (word (base + 28) (omega (arith, al')) ∙ ground arith)
            (word (base + 32) (omega (arith, al')) ∙ ground (arith, ew)) refl,
        word (base + 36) (omega (arith, al')) ∙ ground (arith, xw),
      )
