-- ===== src/Home/Session.antt =====
-- Code: frontend/src/components/HomePage.tsx.
-- What the user can reach on the page: the layout stays well formed, and the buttons that are
-- enabled do what they say.
use vps_dashboard.Common.{
  ℕ, zero, suc, ◌+◌, ◌<◌, ◌≡◌, ◌≢◌, refl, sym, ap, ◌∙◌, subst, arith, String, Bool, true, false,
  not, ◌&&◌, ◌==◌, Option, some, none, [], ◌∷◌, ◌++◌, map, includes, Distinct, Distinct-filter,
  Distinct-concat, get_elem?, All, All-append, length, Option-cases, Bool-cases, All-filter_mono,
  ◌===◌, inl, inr, pos, negsuc, before, ℤ, if◌then◌else◌,
}
use vps_dashboard.Types.{HomeWidgetLayout}
use vps_dashboard.Widgets.{WidgetDef, widget_ids, known_ids}
use vps_dashboard.Home.{
  Layout, HomeState, with_layout, move, remove, available, drag_to, Action, edit, drag_start,
  drag_over, up, down, drag_end, flip, drop_widget, pick, check, uncheck, act,
}
use vps_dashboard.Home.Moving.{move-Distinct, move-All, move-eq-none_iff, move_lem, length-move}
use vps_dashboard.Home.Editing.{
  widget_ids-remove, widget_ids-add, widget_ids-set_span, available_lem,
}

-- The actions that the page offers in a state: the tool bar, the palette and dragging while the
-- layout is edited, and at any time the check boxes of the settings page.
pub data Offers (s : HomeState) : Action → Type 0 where
  edit_button : Offers s edit
  dragging : (i : ℕ) → s.editing ≡ true → i < length s.layout → Offers s (drag_start i)
  over : (i : ℕ) → i < length s.layout → Offers s (drag_over i)
  dropped : Offers s drag_end
  up_button : (i : ℕ) → s.editing ≡ true → i < length s.layout → i ≢ 0 → Offers s (up i)
  down_button :
      (i : ℕ) → s.editing ≡ true → i < length s.layout → i + 1 ≢ length s.layout → Offers s (down i)
  flip_button :
      (i : ℕ) (w : HomeWidgetLayout)
      → s.editing ≡ true
      → get_elem? s.layout i ≡ some w
      → Offers s (flip w)
  remove_button :
      (id : String)
      → s.editing ≡ true
      → includes (widget_ids s.layout) id ≡ true
      → Offers s (drop_widget id)
  palette :
      (id : String)
      → s.editing ≡ true
      → includes (map (λ w. w.id) (available s.layout)) id ≡ true
      → Offers s (pick id)
  checked :
      (def : WidgetDef)
      → includes known_ids def.id ≡ true
      → includes (widget_ids s.layout) def.id ≡ false
      → Offers s (check def)
  unchecked : (def : WidgetDef) → Offers s (uncheck def)

-- The states that a session reaches.
pub data Reach (s : HomeState) : HomeState → Type 0 where
  here : Reach s s
  next : {t : HomeState} (a : Action) → Reach s t → Offers t a → Reach s (act t a)

-- Every widget stands once in the layout, and the registry knows it.
pub record IsValid (layout : Layout) : Type 0 where
  pub distinct : Distinct (widget_ids layout)
  pub known : All (λ x. includes known_ids x ≡ true) (widget_ids layout)

both_of : (a b : Bool) → (a && not b) ≡ true → (a ≡ true) × (b ≡ false)
both_of a b h = ground arith

-- A layout is well formed if another with the same ids is.
same_ids : (l m : Layout) → widget_ids m ≡ widget_ids l → IsValid l → IsValid m
same_ids l m e v = record {
  distinct = subst Distinct (sym e) v.distinct;
  known = subst (All (λ x. includes known_ids x ≡ true)) (sym e) v.known;
}

concat-IsValid :
    (l m : Layout) (id : String)
    → widget_ids m ≡ widget_ids l ++ id ∷ []
    → includes known_ids id ≡ true
    → includes (widget_ids l) id ≡ false
    → IsValid l
    → IsValid m
concat-IsValid l m id e k new v = record {
  distinct = subst Distinct (sym e) (Distinct-concat (widget_ids l) id new v.distinct);
  known =
      subst (All (λ x. includes known_ids x ≡ true)) (sym e)
        (All-append _ (widget_ids l) (id ∷ []) v.known (k, tt));
}

remove-IsValid : (l : Layout) (id : String) → IsValid l → IsValid (remove l id)
remove-IsValid l id v = record {
  distinct =
      subst Distinct (sym (widget_ids-remove l id))
        (Distinct-filter (λ x. not (x === id)) (widget_ids l) v.distinct);
  known =
      subst (All (λ x. includes known_ids x ≡ true)) (sym (widget_ids-remove l id))
        (All-filter_mono _ (λ x. not (x === id)) (widget_ids l) v.known);
}

move-IsValid :
    (s : HomeState) (from : ℕ) (to : ℤ)
    → IsValid s.layout
    → IsValid (with_layout s (move s.layout (pos from) to)).layout
move-IsValid s from (negsuc to) v = unfold move in v
move-IsValid s from (pos to) v = elim (Option-cases (move s.layout (pos from) (pos to))) [
  | inl stays ↦ rw stays v
  | inr (l, moved) ↦ rw moved (record {
    distinct = move-Distinct s.layout l from to moved v.distinct;
    known = move-All s.layout l from to moved _ v.known;
  })
]

drag_to-IsValid :
    (s : HomeState) (d : Option ℕ) (i : ℕ) → IsValid s.layout → IsValid (drag_to s d i).layout
drag_to-IsValid s none i v = v
drag_to-IsValid s (some d) i v = elim (Bool-cases (d == i)) [
  | inl same ↦ rw same v
  | inr differ ↦ rw differ (move-IsValid s d (pos i) v)
]

if-IsValid :
    (b : Bool) (s t : HomeState)
    → IsValid s.layout
    → IsValid t.layout
    → IsValid (if b then s else t).layout
if-IsValid true s t v w = v
if-IsValid false s t v w = w

widget_ids-check :
    (l : Layout) (w : HomeWidgetLayout) → widget_ids (l ++ w ∷ []) ≡ widget_ids l ++ w.id ∷ []
widget_ids-check [] w = refl
widget_ids-check (x ∷ l) w = ap (x.id ∷◌) (widget_ids-check l w)

-- Whatever the page offers keeps the layout well formed: a widget cannot be added twice.
pub act-IsValid :
    (s : HomeState) (a : Action) → Offers s a → IsValid s.layout → IsValid (act s a).layout
unfolding act remove
act-IsValid s edit o v = v
act-IsValid s (drag_start i) o v = v
act-IsValid s drag_end o v = v
act-IsValid s (drag_over i) o v =
    if-IsValid s.editing (drag_to s s.drag_index i) s (drag_to-IsValid s s.drag_index i v) v
act-IsValid s (up i) o v = move-IsValid s i (before i) v
act-IsValid s (down i) o v = move-IsValid s i (pos (i + 1)) v
act-IsValid s (flip w) o v = same_ids s.layout _ (widget_ids-set_span s.layout w.id _) v
act-IsValid s (drop_widget id) o v = remove-IsValid s.layout id v
act-IsValid s (pick id) (palette _ on offered) v =
    let (k, new) = both_of _ _ (sym (available_lem s.layout id) ∙ offered) in
    concat-IsValid s.layout _ id (widget_ids-add s.layout id) k new v
act-IsValid s (check def) (checked _ k new) v =
    concat-IsValid s.layout _ def.id (widget_ids-check s.layout _) k new v
act-IsValid s (uncheck def) o v = remove-IsValid s.layout def.id v

-- Every layout that a session reaches from a well-formed one is well formed: its ids, which React
-- takes as keys, are distinct, and each names a widget of the registry.
pub Reach-IsValid : {s t : HomeState} → Reach s t → IsValid s.layout → IsValid t.layout
Reach-IsValid here v = v
Reach-IsValid (next {t} a r o) v = act-IsValid t a o (Reach-IsValid r v)

up-moves : (s : HomeState) (i : ℕ) → Offers s (up i) → move s.layout (pos i) (before i) ≢ none
up-moves s zero (up_button _ on lt ne) = absurd (ne refl)
up-moves s (suc j) (up_button _ on lt ne) =
    λ e. let stuck = (move-eq-none_iff s.layout (suc j) j).0 e in omega arith

down-moves :
    (s : HomeState) (i : ℕ) → Offers s (down i) → move s.layout (pos i) (pos (i + 1)) ≢ none
down-moves s i (down_button _ on lt ne) =
    λ e. let stuck = (move-eq-none_iff s.layout i (i + 1)).0 e in omega arith

-- An arrow button that the page offers is never without effect: `move` sets a layout.
pub arrow-moves :
    (s : HomeState) (i : ℕ)
    → (Offers s (up i) → move s.layout (pos i) (before i) ≢ none)
      × (Offers s (down i) → move s.layout (pos i) (pos (i + 1)) ≢ none)
arrow-moves s i = (up-moves s i, down-moves s i)

-- The dragged widget, which stood at `d`, stands at `i`, where the next drag takes it up.
abbrev pub Follows : HomeState → HomeState → ℕ → ℕ → Type 0
Follows s t d i =
    (get_elem? t.layout i ≡ get_elem? s.layout d)
    × (t.drag_index ≡ some i)
    × (length t.layout ≡ length s.layout)

drag_to-Follows :
    (s : HomeState) (d i : ℕ)
    → s.drag_index ≡ some d
    → d < length s.layout
    → i < length s.layout
    → Follows s (drag_to s (some d) i) d i
drag_to-Follows s d i dragged dl il = elim (Bool-cases (d == i)) [
  | inl same ↦
      let e : d ≡ i = ground arith in
      rw same (ap (get_elem? s.layout) (sym e), dragged ∙ ap some e, refl)
  | inr differ ↦ rw differ (elim (Option-cases (move s.layout (pos d) (pos i))) [
    | inl stays ↦
        let stuck = (move-eq-none_iff s.layout d i).0 stays in
        let ne : d ≢ i = ground arith in absurd (omega arith)
    | inr (l, moved) ↦
        rw moved ((move_lem s.layout l d i moved).0, refl, length-move s.layout l d i moved)
  ])
]

-- While the layout is edited and the widget at a position of the layout is dragged, when the
-- pointer enters position i of the layout the dragged widget comes to stand at i, i becomes the
-- dragged position, and the layout keeps its length.
pub drag_over_lem :
    (s : HomeState) (d i : ℕ)
    → s.editing ≡ true
    → s.drag_index ≡ some d
    → d < length s.layout
    → i < length s.layout
    → Follows s (act s (drag_over i)) d i
unfolding act
drag_over_lem s d i on dragged dl il =
    let e : act s (drag_over i) ≡ drag_to s (some d) i =
      ap (λ b. if b then drag_to s s.drag_index i else s) on ∙ ap (λ o. drag_to s o i) dragged in
    subst (λ t. Follows s t d i) (sym e) (drag_to-Follows s d i dragged dl il)
