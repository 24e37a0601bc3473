-- ===== src/Actor/Table.antt =====
-- The service map of a new actor process.
use coro_actor.Prelude.{
  ◌≡◌, fun_ext, refl, sym, subst, ap, ◌∙◌, true, Option, some, none, some-injective, List, [], ◌∷◌,
  Bytes, Bytes-discrete, All, if_pos, if_neg, inl, inr, if◌then◌else◌, Bool-cases, Option-cases,
}
use coro_actor.Prelude.Map.{Map, insert, bytes_key}
use coro_actor.Config.{contains}
use coro_actor.Actor.{load_functions}

module _ {Func : Type 0} (dlsym : Bytes → Option Func) where
  -- A table has what `dlsym` finds for the services of the list, and what `m` has for others.
  abbrev pub IsTable : List Bytes → Map Bytes Func → Map Bytes Func → Type 0
  IsTable services m table = (x : Bytes) → table x ≡ (if contains services x then dlsym x else m x)

  insert-IsTable :
      (services : List Bytes) (m table : Map Bytes Func) (service : Bytes) (f : Func)
      → dlsym service ≡ some f
      → IsTable services (insert m service f) table
      → IsTable (service ∷ services) m table
  insert-IsTable services m table service f e h x =
      let found = contains services x in
      elim (Bytes-discrete service x) [
        | yes same ↦
            rw (if_pos (Bytes-discrete service x) same true found) (elim (Bool-cases found) [
              | inl there ↦ h x ∙ ap (λ b. if b then dlsym x else insert m service f x) there
              | inr absent ↦
                  h x
                  ∙ ap (λ b. if b then dlsym x else insert m service f x) absent
                  ∙ if_pos (Bytes-discrete service x) same (some f) (m x)
                  ∙ sym e
                  ∙ ap dlsym same
            ])
        | no different ↦ rw (if_neg (Bytes-discrete service x) different true found) (
            h x
            ∙ ap (λ y. if found then dlsym x else y)
                (if_neg (Bytes-discrete service x) different (some f) (m x)))
      ]

  abbrev pub IsFound : Bytes → Type 0
  IsFound service = (f : Func) × (dlsym service ≡ some f)

  -- What the loop over the services leaves where it comes to its end.
  pub record IsLoaded (services : List Bytes) (m table : Map Bytes Func) : Type 0 where
    pub found : All IsFound services
    pub holds : IsTable services m table

  load_functions-missing :
      (service : Bytes) (services : List Bytes) (m : Map Bytes Func)
      → dlsym service ≡ none
      → load_functions dlsym (service ∷ services) m ≡ none
  load_functions-missing service services m e = rw (e, load_functions) refl

  load_functions-found :
      (service : Bytes) (services : List Bytes) (m : Map Bytes Func) (f : Func)
      → dlsym service ≡ some f
      → load_functions dlsym (service ∷ services) m
        ≡ load_functions dlsym services (insert m service f)
  load_functions-found service services m f e = rw (e, load_functions) refl

  pub load_functions-IsLoaded :
      (services : List Bytes) (m table : Map Bytes Func)
      → load_functions dlsym services m ≡ some table
      → IsLoaded services m table
  load_functions-IsLoaded [] m table e = record {
    found = tt;
    holds = λ x. sym (ap (λ t. t x) (some-injective _ _ e));
  }
  load_functions-IsLoaded (service ∷ services) m table e = elim (Option-cases (dlsym service)) [
    | inl missing ↦ absurd (cc (e, load_functions-missing service services m missing))
    | inr (f, here) ↦
        let rest =
          load_functions-IsLoaded services (insert m service f) table
            (sym (load_functions-found service services m f here) ∙ e) in
        record {
          found = ((f, here), rest.found);
          holds = insert-IsTable services m table service f here rest.holds;
        }
  ]

  all_found :
      (services : List Bytes) (m : Map Bytes Func)
      → All IsFound services
      → (table : Map Bytes Func) × (load_functions dlsym services m ≡ some table)
  all_found [] m h = (m, refl)
  all_found (service ∷ services) m h =
      let (f, here) = h.0 in
      let (table, e) = all_found services (insert m service f) h.1 in
      (table, load_functions-found service services m f here ∙ e)

  pub load_functions-loaded :
      (services : List Bytes) (m table : Map Bytes Func)
      → IsLoaded services m table
      → load_functions dlsym services m ≡ some table
  load_functions-loaded services m table h =
      let (other, e) = all_found services m h.found in
      let same =
        fun_ext λ x. (load_functions-IsLoaded services m other e).holds x ∙ sym (h.holds x) in
      e ∙ ap some same

  -- A service of the list that `dlsym` does not find.
  pub record IsMissing (services : List Bytes) : Type 0 where
    pub service : Bytes
    pub listed : contains services service ≡ true
    pub missing : dlsym service ≡ none

  IsMissing-tail :
      (service : Bytes) (services : List Bytes)
      → IsMissing services
      → IsMissing (service ∷ services)
  IsMissing-tail service services h = record {
    service = h.service;
    listed = elim (Bytes-discrete service h.service) [
      | yes same ↦ if_pos (Bytes-discrete service h.service) same true (contains services h.service)
      | no different ↦
          if_neg (Bytes-discrete service h.service) different true (contains services h.service)
          ∙ h.listed
    ];
    missing = h.missing;
  }

  pub load_functions-IsMissing :
      (services : List Bytes) (m : Map Bytes Func)
      → load_functions dlsym services m ≡ none
      → IsMissing services
  load_functions-IsMissing [] m e = absurd (cc)
  load_functions-IsMissing (service ∷ services) m e = elim (Option-cases (dlsym service)) [
    | inl missing ↦ record {
      service = service;
      listed = if_pos (Bytes-discrete service service) refl true (contains services service);
      missing = missing;
    }
    | inr (f, here) ↦ IsMissing-tail service services (
        load_functions-IsMissing services (insert m service f)
          (sym (load_functions-found service services m f here) ∙ e))
  ]

  contains-IsFound :
      (services : List Bytes) (x : Bytes)
      → All IsFound services
      → contains services x ≡ true
      → IsFound x
  contains-IsFound [] x h e = absurd (cc)
  contains-IsFound (y ∷ ys) x h e = elim (Bytes-discrete y x) [
    | yes same ↦ subst IsFound same h.0
    | no different ↦
        contains-IsFound ys x h.1
          (sym (if_neg (Bytes-discrete y x) different true (contains ys x)) ∙ e)
  ]

  pub load_functions-not_found :
      (services : List Bytes) (m : Map Bytes Func)
      → IsMissing services
      → load_functions dlsym services m ≡ none
  load_functions-not_found services m h = elim (Option-cases (load_functions dlsym services m)) [
    | inl e ↦ e
    | inr (table, e) ↦
        let (f, here) =
          contains-IsFound services h.service (load_functions-IsLoaded services m table e).found
            h.listed in
        absurd (cc (here, h.missing))
  ]
