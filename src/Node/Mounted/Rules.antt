-- ===== src/Node/Mounted/Rules.antt =====
-- pkg/driver/nodeserver.go: how what actions do to the table of mounts is put together.
use reference_guides.Base.{
  Bool, true, false, Code, Error, Result, ok, err, Exec, pure, fail, continue, or_status,
  status_for, ValueHas, ◌>>=◌, if◌then◌else◌, ◌≡◌, subst, sym, IsFine, Meets,
}
use reference_guides.Node.Host.{Host}
use reference_guides.Node.Server.{on_host}
use reference_guides.Node.Disciplined.Volumes.{beside}
use reference_guides.Node.Mounted.Tables.{Table, Spec, MountTable, is_ok, keeps}

module _ (S : Type 0) (H : Host) (T : MountTable H) where
  abbrev pub table_of : S × H.State → Table
  table_of s = T.table s.1

  abbrev pub Keeps : {A : Type 0} → Exec (S × H.State) A → Type 0
  Keeps m = Meets (beside S (keeps H T)) m

  pub any_beside : {A : Type 0} (r : Result A) → IsFine (beside S (keeps H T)) r
  any_beside (ok a) = tt
  any_beside (err e) = tt

  -- Every run of the action does to the table what the spec allows.
  pub record Does {A : Type 0} (P : Spec) (m : Exec (S × H.State) A) : Type 0 where
    pub does : (s : S × H.State) → P (is_ok (m s).0) (table_of s) (table_of (m s).1)

  pub pure-Does : {A : Type 0} (P : Spec) (a : A) → ((t : Table) → P true t t) → Does P (pure a)
  pure-Does P a h = record { does = λ s. h (table_of s) }

  pub fail-Does :
      {A : Type 0} (P : Spec) (e : Error) → ((t : Table) → P false t t) → Does {A = A} P (fail e)
  fail-Does P e h = record { does = λ s. h (table_of s) }

  pub if-Does :
      {A : Type 0} (P : Spec) (b : Bool) (m n : Exec (S × H.State) A)
      → Does P m
      → Does P n
      → Does P (if b then m else n)
  if-Does P true m n h k = h
  if-Does P false m n h k = k

  pub imp-Does :
      {A : Type 0} (P Q : Spec) (m : Exec (S × H.State) A)
      → ((b : Bool) (t u : Table) → P b t u → Q b t u)
      → Does P m
      → Does Q m
  imp-Does P Q m f h = record {
    does = λ s. f (is_ok (m s).0) (table_of s) (table_of (m s).1) (h.does s);
  }

  status_for-Does :
      {A : Type 0} (P : Spec) (c : Code) (t : Table) (r : Result A) (s : S × H.State)
      → P (is_ok r) t (table_of s)
      → P (is_ok (status_for c (r, s)).0) t (table_of (status_for c (r, s)).1)
  status_for-Does P c t (ok a) s h = h
  status_for-Does P c t (err e) s h = h

  pub or_status-Does :
      {A : Type 0} (P : Spec) (c : Code) (m : Exec (S × H.State) A)
      → Does P m
      → Does P (or_status c m)
  or_status-Does P c m h = record {
    does = λ s. status_for-Does P c (table_of s) (m s).0 (m s).1 (h.does s);
  }

  continued :
      {A B : Type 0} (P : Spec) (t : Table) (f : A → Exec (S × H.State) B) (r : Result A)
      (s : S × H.State)
      → table_of s ≡ t
      → ((u : Table) → P false u u)
      → ((a : A) → P (is_ok (f a s).0) (table_of s) (table_of (f a s).1))
      → P (is_ok (continue f (r, s)).0) t (table_of (continue f (r, s)).1)
  continued P t f (ok a) s same stay k =
      subst (λ u. P (is_ok (f a s).0) u (table_of (f a s).1)) same (k a)
  continued P t f (err e) s same stay k =
      subst (λ u. P false u (table_of s)) same (stay (table_of s))

  -- A first action that changes no mount.
  pub bind-Does :
      {A B : Type 0} (P : Spec) (m : Exec (S × H.State) A) (f : A → Exec (S × H.State) B)
      → Keeps m
      → ((t : Table) → P false t t)
      → ((a : A) → Does P (f a))
      → Does P (m >>= f)
  bind-Does P m f h stay k = record {
    does = λ s.
        continued P (table_of s) f (m s).0 (m s).1 (h.follows s) stay (λ a. (k a).does (m s).1);
  }

  answered :
      {A B : Type 0} (P : Spec) (Q : A → Table → Type 0) (t : Table) (f : A → Exec (S × H.State) B)
      (r : Result A) (s : S × H.State)
      → table_of s ≡ t
      → ValueHas (λ a. Q a t) r
      → ((u : Table) → P false u u)
      → ((a : A) (s' : S × H.State)
          → Q a (table_of s')
          → P (is_ok (f a s').0) (table_of s') (table_of (f a s').1))
      → P (is_ok (continue f (r, s)).0) t (table_of (continue f (r, s)).1)
  answered P Q t f (ok a) s same q stay k =
      subst (λ u. P (is_ok (f a s).0) u (table_of (f a s).1)) same
        (k a s (subst (Q a) (sym same) q))
  answered P Q t f (err e) s same q stay k =
      subst (λ u. P false u (table_of s)) same (stay (table_of s))

  -- A first action that changes no mount, and whose value says something of the mounts.
  pub ask-Does :
      {A B : Type 0} (P : Spec) (Q : A → Table → Type 0) (m : Exec (S × H.State) A)
      (f : A → Exec (S × H.State) B)
      → Keeps m
      → ((s : S × H.State) → ValueHas (λ a. Q a (table_of s)) (m s).0)
      → ((t : Table) → P false t t)
      → ((a : A) (s : S × H.State)
          → Q a (table_of s)
          → P (is_ok (f a s).0) (table_of s) (table_of (f a s).1))
      → Does P (m >>= f)
  ask-Does P Q m f h q stay k = record {
    does = λ s. answered P Q (table_of s) f (m s).0 (m s).1 (h.follows s) (q s) stay k;
  }

  -- An action that changes mounts before one that does not.
  pub then-Does :
      {A B : Type 0} (P Q : Spec) (m : Exec (S × H.State) A) (f : A → Exec (S × H.State) B)
      → Does P m
      → ((a : A) → Keeps (f a))
      → ((b : Bool) (t u : Table) → P true t u → Q b t u)
      → ((t u : Table) → P false t u → Q false t u)
      → Does Q (m >>= f)
  then-Does P Q m f h k yes_case no_case = record { does = λ s. go s (m s).0 (m s).1 (h.does s) }
    where
      go :
          (s : S × H.State) (r : Result _) (s' : S × H.State)
          → P (is_ok r) (table_of s) (table_of s')
          → Q (is_ok (continue f (r, s')).0) (table_of s) (table_of (continue f (r, s')).1)
      go s (ok a) s' p =
          yes_case (is_ok (f a s').0) (table_of s) (table_of (f a s').1)
            (subst (λ u. P true (table_of s) u) (sym ((k a).follows s')) p)
      go s (err e) s' p = no_case (table_of s) (table_of s') p

  -- An action of the host.
  pub on_host-Does :
      {A : Type 0} (P : Spec) (m : Exec H.State A)
      → ((h : H.State) → P (is_ok (m h).0) (T.table h) (T.table (m h).1))
      → Does P (on_host m)
  on_host-Does P m k = record { does = λ s. k s.1 }

  pub or_status-ValueHas :
      {A : Type 0} (P : A → Type 0) (c : Code) (r : Result A) (s : S × H.State)
      → ValueHas P r
      → ValueHas P (status_for c (r, s)).0
  or_status-ValueHas P c (ok a) s h = h
  or_status-ValueHas P c (err e) s h = tt

pub ruleset mounting = (if-Does, or_status-Does, bind-Does, on_host-Does, pure-Does, fail-Does)
