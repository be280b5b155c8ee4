-- ===== src/GoPath.antt =====
-- Go's package `path`, which the program uses for every name of a file: `Clean`, `IsAbs`, `Join`,
-- `Dir` and `Base` after their documentation.
pub mod Clean
pub mod Parts
use s3ftpgateway.Base.{
  ℕ, Bool, true, false, ◌||◌, List, [], ◌∷◌, ◌++◌, ◌==◌, if◌then◌else◌, Bytes, beq,
}
use s3ftpgateway.Text.{split}

abbrev pub slash : ℕ
slash = b'/'

abbrev pub dot : Bytes
dot = b'.' ∷ []

abbrev pub dot_dot : Bytes
dot_dot = b'.' ∷ b'.' ∷ []

-- One element of a path: empty elements and "." vanish, ".." takes the element before it away; at
-- the root it vanishes, and in front of a relative path it stays. The last element stands first.
unfoldable pub push_element : Bool → List Bytes → Bytes → List Bytes
push_element rooted elements [] = elements
push_element rooted elements (b ∷ bs) =
    let e = b ∷ bs in
    if beq e dot
    then elements
    else if beq e dot_dot
    then (elim elements [
      | [] ↦ if rooted then [] else dot_dot ∷ []
      | top ∷ below ↦ if beq top dot_dot then dot_dot ∷ top ∷ below else below
    ])
    else e ∷ elements

unfoldable pub push_elements : Bool → List Bytes → List Bytes → List Bytes
push_elements rooted elements [] = elements
push_elements rooted elements (e ∷ es) = push_elements rooted (push_element rooted elements e) es

-- The elements joined by slashes, from the last one on.
unfoldable pub join_reversed : List Bytes → Bytes → Bytes
join_reversed [] rest = rest
join_reversed (e ∷ []) rest = e ++ rest
join_reversed (e ∷ f ∷ es) rest = join_reversed (f ∷ es) (slash ∷ (e ++ rest))

-- `path.IsAbs`
unfoldable pub is_abs : Bytes → Bool
is_abs [] = false
is_abs (b ∷ bs) = b == slash

abbrev pub or_dot : Bytes → Bytes
or_dot [] = dot
or_dot (b ∷ bs) = b ∷ bs

-- `path.Clean`
unfoldable pub clean : Bytes → Bytes
unfolding is_abs
clean [] = dot
clean (b ∷ bs) =
    let p = b ∷ bs in
    let rooted = is_abs p in
    let body = join_reversed (push_elements rooted [] (split slash p)) [] in
    if rooted then slash ∷ body else or_dot body

-- `path.Join` of two elements; empty ones in front are ignored.
unfoldable pub join : Bytes → Bytes → Bytes
join [] [] = []
join [] (b ∷ bs) = clean (b ∷ bs)
join (a ∷ as') b = clean ((a ∷ as') ++ (slash ∷ b))

-- `path.Split`: behind the last slash.
unfoldable pub split_last : Bytes → Bytes × Bytes
split_last [] = ([], [])
split_last (b ∷ bs) =
    let (dir, file) = split_last bs in
    elim dir [
      | [] ↦ if b == slash then (b ∷ [], file) else ([], b ∷ file)
      | d ∷ ds ↦ (b ∷ d ∷ ds, file)
    ]

-- `path.Dir`
unfoldable pub dir : Bytes → Bytes
unfolding split_last
dir p = clean (split_last p).0

-- The path without its slashes at the end.
trim_slashes : Bytes → Bytes
trim_slashes [] = []
trim_slashes (b ∷ bs) = elim (trim_slashes bs) [
  | [] ↦ if b == slash then [] else b ∷ []
  | c ∷ cs ↦ b ∷ c ∷ cs
]

abbrev or_slash : Bytes → Bytes
or_slash [] = slash ∷ []
or_slash (b ∷ bs) = b ∷ bs

-- `path.Base`
unfoldable pub base : Bytes → Bytes
unfolding trim_slashes split_last
base [] = dot
base (b ∷ bs) = or_slash (split_last (trim_slashes (b ∷ bs))).1
