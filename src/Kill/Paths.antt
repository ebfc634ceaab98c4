-- ===== src/Kill/Paths.antt =====
-- The paths that tools/kill_driver.cpp makes up.
use Prim.Native.Char.{Char, code}
use Prim.Native.String.{String, ◌++◌ as str_append}
use Prim.Native.String.append.{nil as append_nil, cons as append_cons}
use iron_ledger.Common.{◌≡◌, refl, sym, ◌∙◌, ap, Bool, true, false, ◌||◌, none}
use iron_ledger.Kill.Driver.{is_slash, has_slash, through_slash, worker_path, drop_slash}

-- A directory, a slash, and a name behind it.
abbrev pub joined : String → String → String
joined dir name = str_append dir (String.◌∷◌ "/" name)

has_slash-cons :
    (x : Char) (s : String) → has_slash (String.◌∷◌ x s) ≡ (is_slash (code x) || has_slash s)
unfolding has_slash
has_slash-cons x s = refl

or_true : (b : Bool) → (b || true) ≡ true
or_true true = refl
or_true false = refl

slash_first : (name : String) → has_slash (String.◌∷◌ "/" name) ≡ true
unfolding has_slash
slash_first name = refl

has_slash-joined : (dir name : String) → has_slash (joined dir name) ≡ true
has_slash-joined String.[] name = ap has_slash (append_nil (String.◌∷◌ "/" name)) ∙ slash_first name
has_slash-joined (String.◌∷◌ x s) name =
    ap has_slash (append_cons x s (String.◌∷◌ "/" name))
    ∙ has_slash-cons x (joined s name)
    ∙ ap (λ b. is_slash (code x) || b) (has_slash-joined s name)
    ∙ or_true (is_slash (code x))

through_here :
    (x : Char) (s : String)
    → (is_slash (code x) || has_slash s) ≡ true
    → through_slash (String.◌∷◌ x s) ≡ String.◌∷◌ x (through_slash s)
unfolding through_slash
through_here x s h = rw h refl

through_none : (s : String) → has_slash s ≡ false → through_slash s ≡ ""
unfolding has_slash through_slash
through_none String.[] h = refl
through_none (String.◌∷◌ x s) h = rw h refl

-- What is kept is the directory with its slash.
through_slash-joined :
    (dir name : String) → has_slash name ≡ false → through_slash (joined dir name) ≡ joined dir ""
through_slash-joined String.[] name h =
    ap through_slash (append_nil (String.◌∷◌ "/" name))
    ∙ through_here "/" name refl
    ∙ ap (String.◌∷◌ "/") (through_none name h)
    ∙ sym (append_nil (String.◌∷◌ "/" ""))
through_slash-joined (String.◌∷◌ x s) name h =
    ap through_slash (append_cons x s (String.◌∷◌ "/" name))
    ∙ through_here x (joined s name)
        (ap (λ b. is_slash (code x) || b) (has_slash-joined s name) ∙ or_true (is_slash (code x)))
    ∙ ap (String.◌∷◌ x) (through_slash-joined s name h)
    ∙ sym (append_cons x s (String.◌∷◌ "/" ""))

drop_later :
    (x y : Char) (s : String)
    → drop_slash (String.◌∷◌ x (String.◌∷◌ y s)) ≡ String.◌∷◌ x (drop_slash (String.◌∷◌ y s))
unfolding drop_slash
drop_later x y s = refl

-- A directory that is given with a slash behind it is the directory.
pub drop_slash-joined : (dir : String) → drop_slash (joined dir "") ≡ dir
drop_slash-joined String.[] = ap drop_slash (append_nil "/") ∙ (unfold drop_slash in refl)
drop_slash-joined (String.◌∷◌ x String.[]) =
    ap drop_slash (append_cons x "" "/" ∙ ap (String.◌∷◌ x) (append_nil "/"))
    ∙ drop_later x "/" ""
    ∙ ap (String.◌∷◌ x) (unfold drop_slash in refl)
drop_slash-joined (String.◌∷◌ x (String.◌∷◌ y s)) =
    ap drop_slash (append_cons x (String.◌∷◌ y s) "/" ∙ ap (String.◌∷◌ x) (append_cons y s "/"))
    ∙ drop_later x y (str_append s "/")
    ∙ ap (String.◌∷◌ x)
        (ap drop_slash (sym (append_cons y s "/")) ∙ drop_slash-joined (String.◌∷◌ y s))

has_worker :
    (self : String)
    → has_slash self ≡ true
    → worker_path none self ≡ str_append (through_slash self) "kill_worker"
unfolding worker_path
has_worker self h = rw h refl

-- The worker is looked for beside the driver.
pub worker_path-joined :
    (dir name : String)
    → has_slash name ≡ false
    → worker_path none (joined dir name) ≡ str_append (joined dir "") "kill_worker"
worker_path-joined dir name h =
    has_worker (joined dir name) (has_slash-joined dir name)
    ∙ ap (λ s. str_append s "kill_worker") (through_slash-joined dir name h)
