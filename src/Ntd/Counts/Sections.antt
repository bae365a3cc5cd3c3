-- ===== src/Ntd/Counts/Sections.antt =====
-- ntd/ntd.c: the handlers of sections keep the reference counts true, where a section fails to be
-- backed too.
use ntlinux.Common.{
  ℤ, ℕ, pos, ◌≡◌, refl, ◌∙◌, List, ◌∷◌, Option, none, arith, Bool-cases, Option-cases, inl, inr,
  leb_ℤ,
}
use ntlinux.Ntabi.{
  Request, Status, object_name_not_found, object_name_collision, object_type_mismatch,
  invalid_parameter, internal_error,
}
use ntlinux.Ntd.State.{Ntd, Env, section}
use ntlinux.Ntd.Complete.{complete_section}
use ntlinux.Ntd.Objects.{same_type, find_by_name, create_object, free_object, unlink}
use ntlinux.Ntd.Sync.{name_taken}
use ntlinux.Ntd.Ports.{
  new_section, give_section, back_section, handle_create_section, handle_open_section,
  section_answer,
}
use ntlinux.Ntd.Counts.{book, linked, Book, Rules, post-book}
use ntlinux.Ntd.Counts.Closing.{free_object-book}
use ntlinux.Ntd.Counts.Handlers.{find_by_name-links, Holds, register-keeps, register_new-keeps}

module _ (k : ℕ) (P : Book → Type 0) (rules : Rules k P) where
  complete_section-book :
      (s : Ntd) (i : ℕ) (st : Status) (h : ℕ) (n : ℤ) (name : Option ℕ)
      → book k (complete_section s i st h n name) ≡ book k s
  unfolding complete_section
  complete_section-book s i st h n name = post-book k s i _

  section_answer-keeps :
      (i : ℕ) (st : Status) (s : Ntd) → Holds k P s → Holds k P (section_answer s i st)
  section_answer-keeps i st s v = rw (complete_section-book s i st 0 (pos 0) none) v

  pub open_section-keeps :
      (req : Request) (i pid : ℕ) (s : Ntd)
      → Holds k P s
      → Holds k P (handle_open_section req i pid s)
  unfolding handle_open_section give_section
  open_section-keeps req i pid s v = elim (Option-cases (find_by_name s req.name)) [
    | inl n ↦ rw (handle_open_section, n) (section_answer-keeps i object_name_not_found s v)
    | inr (id, n) ↦ elim (Bool-cases (same_type (s.object_at id).type section)) [
      | inl t ↦
          rw (handle_open_section, n, t, complete_section-book)
            (register-keeps k P rules pid id s v (find_by_name-links s req.name id n))
      | inr t ↦ rw (handle_open_section, n, t) (section_answer-keeps i object_type_mismatch s v)
    ]
  ]

  new_section-book :
      (req : Request) (s : Ntd) → book k (new_section req s).1 ≡ linked k section (book k s)
  unfolding new_section book linked create_object
  new_section-book req s = ground arith

  segments-book :
      (segments : List ℕ) (s : Ntd) → book k (record s { segments = segments }) ≡ book k s
  unfolding book
  segments-book segments s = refl

  -- The new section is freed again.
  gone-keeps :
      (s t : Ntd)
      → Holds k P s
      → book k t ≡ linked k section (book k s)
      → Holds k P (free_object s.next_object_id t)
  unfolding book
  gone-keeps s t v e =
      rw (free_object-book k s.next_object_id t) (rw e (rules.freed (book k s) section v))

  back_section-keeps :
      (env : Env) (req : Request) (n i pid : ℕ) (s t : Ntd)
      → Holds k P s
      → book k t ≡ linked k section (book k s)
      → Holds k P (back_section env req n s.next_object_id i pid t)
  unfolding back_section give_section
  back_section-keeps env req n i pid s t v e = elim (Bool-cases (env.shm_open n)) [
    | inl o ↦ elim (Bool-cases (env.ftruncate n req.section_size)) [
      | inl f ↦
          rw (o, f, complete_section-book)
            (register_new-keeps k P rules pid section s _ v (segments-book (n ∷ t.segments) t ∙ e))
      | inr f ↦
          rw (o, f)
            (section_answer-keeps i internal_error _
              (gone-keeps s _ v (segments-book (unlink n (n ∷ t.segments)) t ∙ e)))
    ]
    | inr o ↦ rw o (section_answer-keeps i internal_error _ (gone-keeps s t v e))
  ]

  new_section_id : (req : Request) (s : Ntd) → (new_section req s).0 ≡ s.next_object_id
  unfolding new_section create_object
  new_section_id req s = refl

  pub create_section-keeps :
      (env : Env) (req : Request) (i pid : ℕ) (s : Ntd)
      → Holds k P s
      → Holds k P (handle_create_section env req i pid s)
  unfolding handle_create_section
  create_section-keeps env req i pid s v = elim (Bool-cases (leb_ℤ req.section_size (pos 0))) [
    | inl b ↦ rw b (section_answer-keeps i invalid_parameter s v)
    | inr b ↦ elim (Bool-cases (name_taken s req)) [
      | inl t ↦ rw (b, t) (section_answer-keeps i object_name_collision s v)
      | inr t ↦
          rw (b, t, new_section_id)
            (back_section-keeps env req _ i pid s (new_section req s).1 v (new_section-book req s))
    ]
  ]
