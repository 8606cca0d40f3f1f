-- ===== src/Api/Dashboard/Table.antt =====
-- `_render_table` of kalshi_agent/api/routes/dashboard.py, on lists of code points.
use kalshi_agent.Base.{◌≡◌, ◌∙◌, refl, sym, ap, List, [], ◌∷◌, ◌++◌, append_assoc}
use kalshi_agent.Texts.{Text}

-- `<p><em>(empty)</em></p>`
abbrev empty_note : Text
empty_note =
    60 ∷ 112 ∷ 62 ∷ 60 ∷ 101 ∷ 109 ∷ 62 ∷ 40 ∷ 101 ∷ 109 ∷ 112 ∷ 116 ∷ 121 ∷ 41 ∷ 60 ∷ 47 ∷ 101
    ∷ 109 ∷ 62 ∷ 60 ∷ 47 ∷ 112 ∷ 62 ∷ []

-- `<table><thead><tr>`
abbrev table_start : Text
table_start =
    60 ∷ 116 ∷ 97 ∷ 98 ∷ 108 ∷ 101 ∷ 62 ∷ 60 ∷ 116 ∷ 104 ∷ 101 ∷ 97 ∷ 100 ∷ 62 ∷ 60 ∷ 116 ∷ 114 ∷ 62
    ∷ []

-- `</tr></thead><tbody>`
abbrev body_start : Text
body_start =
    60 ∷ 47 ∷ 116 ∷ 114 ∷ 62 ∷ 60 ∷ 47 ∷ 116 ∷ 104 ∷ 101 ∷ 97 ∷ 100 ∷ 62 ∷ 60 ∷ 116 ∷ 98 ∷ 111 ∷ 100
    ∷ 121 ∷ 62 ∷ []

-- `</tbody></table>`
abbrev table_end : Text
table_end =
    60 ∷ 47 ∷ 116 ∷ 98 ∷ 111 ∷ 100 ∷ 121 ∷ 62 ∷ 60 ∷ 47 ∷ 116 ∷ 97 ∷ 98 ∷ 108 ∷ 101 ∷ 62 ∷ []

-- `<th>`
abbrev th : Text
th = 60 ∷ 116 ∷ 104 ∷ 62 ∷ []

-- `</th>`
abbrev th_end : Text
th_end = 60 ∷ 47 ∷ 116 ∷ 104 ∷ 62 ∷ []

-- `<tr>`
abbrev tr : Text
tr = 60 ∷ 116 ∷ 114 ∷ 62 ∷ []

-- `</tr>`
abbrev tr_end : Text
tr_end = 60 ∷ 47 ∷ 116 ∷ 114 ∷ 62 ∷ []

-- `<td>`
abbrev td : Text
td = 60 ∷ 116 ∷ 100 ∷ 62 ∷ []

-- `</td>`
abbrev td_end : Text
td_end = 60 ∷ 47 ∷ 116 ∷ 100 ∷ 62 ∷ []

-- `"".join` of a text for each element.
abbrev join : {A : Type 0} → (A → Text) → List A → Text
join f [] = []
join f (x ∷ xs) = f x ++ join f xs

abbrev header_cell : Text → Text
header_cell c = th ++ c ++ th_end

abbrev body_cell : Text → Text
body_cell c = td ++ c ++ td_end

abbrev body_row : List Text → Text
body_row cells = tr ++ join body_cell cells ++ tr_end

unfoldable pub render_table : List Text → List (List Text) → Text
render_table headers [] = empty_note
render_table headers (r ∷ rows) =
    table_start
    ++ (join header_cell headers ++ (body_start ++ (join body_row (r ∷ rows) ++ table_end)))

-- A text that stands within another.
abbrev Shows : Text → Text → Type 0
Shows part whole = (before : Text) × (after : Text) × (whole ≡ before ++ (part ++ after))

Shows-behind : (t part whole : Text) → Shows part whole → Shows part (t ++ whole)
Shows-behind t part whole (before, after, e) =
    (t ++ before, after, ap (λ w. t ++ w) e ∙ sym (append_assoc t before (part ++ after)))

Shows-ahead : (t part whole : Text) → Shows part whole → Shows part (whole ++ t)
Shows-ahead t part whole (before, after, e) = (
  before,
  after ++ t,
  ap (λ w. w ++ t) e
      ∙ append_assoc before (part ++ after) t
      ∙ ap (λ w. before ++ w) (append_assoc part after t),
)

Shows-join :
    {A : Type 0} (f : A → Text) (part : Text) (left : List A) (x : A) (right : List A)
    → Shows part (f x)
    → Shows part (join f (left ++ x ∷ right))
Shows-join f part [] x right shown = Shows-ahead (join f right) part (f x) shown
Shows-join f part (y ∷ left) x right shown =
    Shows-behind (f y) part (join f (left ++ x ∷ right)) (Shows-join f part left x right shown)

Shows-body_cell : (c : Text) → Shows c (body_cell c)
Shows-body_cell c = (td, td_end, refl)

Shows-body_row :
    (left : List Text) (c : Text) (right : List Text) → Shows c (body_row (left ++ c ∷ right))
Shows-body_row left c right = Shows-behind tr c (join body_cell (left ++ c ∷ right) ++ tr_end) (
    Shows-ahead tr_end c (join body_cell (left ++ c ∷ right))
      (Shows-join body_cell c left c right (Shows-body_cell c)))

rendered :
    (headers : List Text) (rows : List (List Text)) (c : Text)
    → Shows c (join body_row rows)
    → Shows c (
        table_start
        ++ (join header_cell headers ++ (body_start ++ (join body_row rows ++ table_end))))
rendered headers rows c shown = Shows-behind table_start c _ (
    Shows-behind (join header_cell headers) c _
      (Shows-behind body_start c _ (Shows-ahead table_end c (join body_row rows) shown)))

-- Every cell of every row stands in the page as it is, with no character escaped.
cells_unescaped :
    (headers : List Text) (above : List (List Text)) (left : List Text) (c : Text)
    (right : List Text) (below : List (List Text))
    → Shows c (render_table headers (above ++ (left ++ c ∷ right) ∷ below))
unfolding render_table
cells_unescaped headers [] left c right below =
    rendered headers ((left ++ c ∷ right) ∷ below) c
      (Shows-join body_row c [] (left ++ c ∷ right) below (Shows-body_row left c right))
cells_unescaped headers (r ∷ above) left c right below =
    rendered headers (r ∷ above ++ (left ++ c ∷ right) ∷ below) c
      (Shows-join body_row c (r ∷ above) (left ++ c ∷ right) below (Shows-body_row left c right))
