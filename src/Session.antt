-- ===== src/Session.antt =====
-- src/sessions/store.ts: the file that maps agent sessions to the sessions of the runtime.
mod Tests
use linear_agent_bridge.Base.{
  ◌≡◌, ◌≢◌, refl, ap, ◌∙◌, Bool, true, false, Option, none, some, List, [], ◌∷◌, ◌++◌, Text, Dict,
  lookup, put, text_dec, arith, if◌then◌else◌, same, ite, Bool-cases, inl, inr,
}
use linear_agent_bridge.Base.Lists.{All}
use linear_agent_bridge.Base.Dicts.{lookup-put}

-- `SessionRecord`
pub record SessionRecord : Type 0 where
  pub linear_session_id : Text
  pub runtime_session_id : Text
  pub runtime : Text
  pub issue_identifier : Option Text
  pub updated_at : Text

-- The file: `none` when it is missing or holds no JSON object.
abbrev pub File : Type 0
File = Option (Dict SessionRecord)

-- `readAll`: any failure to read the file, like a missing one, gives an empty map.
unfoldable pub read_all : (readable : Bool) → File → Dict SessionRecord
read_all false file = []
read_all true none = []
read_all true (some sessions) = sessions

-- `get`
unfoldable pub get : Text → (readable : Bool) → File → Option SessionRecord
unfolding read_all lookup
get id readable file = lookup id (read_all readable file)

-- A call of `put`: whether its `readFile` succeeds, and whether `writeAll` gets to its rename.
pub record Put : Type 0 where
  pub kept : SessionRecord
  pub readable : Bool
  pub written : Bool

-- `put` after the puts before it. A put whose write fails rejects, and the next one goes on all the
-- same; one whose read fails writes a file that holds its own record only.
unfoldable pub put_record : Put → File → File
unfolding read_all put
put_record p file =
    if p.written
    then some (put (p.kept).linear_session_id p.kept (read_all p.readable file))
    else file

-- A series of puts, with what became of each.
unfoldable pub put_all : List Put → File → File
unfolding put_record
put_all [] file = file
put_all (p ∷ puts) file = put_all puts (put_record p file)

-- The put leaves what the file says of the session: it writes nothing, or it wrote over what it had
-- read, and it is for another session.
abbrev pub Leaves : Text → Put → Type 0
Leaves id p = p.written ≡ true → (p.readable ≡ true) × ((p.kept).linear_session_id ≢ id)

put_record-Leaves :
    (id : Text) (p : Put) (file : File)
    → Leaves id p
    → get id true (put_record p file) ≡ get id true file
unfolding put_record get read_all
put_record-Leaves id p file h = elim (Bool-cases p.written) [
  | inl w ↦
      rw (w, (h w).0)
        (ground
          (arith, (h w).1, lookup-put id (p.kept).linear_session_id p.kept (read_all true file)))
  | inr w ↦ rw w refl
]

put_all-Leaves :
    (id : Text) (puts : List Put) (file : File)
    → All (Leaves id) puts
    → get id true (put_all puts file) ≡ get id true file
unfolding put_all
put_all-Leaves id [] file h = refl
put_all-Leaves id (p ∷ puts) file h =
    put_all-Leaves id puts (put_record p file) h.1 ∙ put_record-Leaves id p file h.0

put_all-++ :
    (before after : List Put) (file : File)
    → put_all (before ++ after) file ≡ put_all after (put_all before file)
unfolding put_all
put_all-++ [] after file = refl
put_all-++ (p ∷ before) after file = put_all-++ before after (put_record p file)

-- What the file says of a session after a put.
abbrev pub after_put : Text → Put → Option SessionRecord → Option SessionRecord
after_put id p old =
    if same (p.kept).linear_session_id id then some p.kept else if p.readable then old else none

put_record-after_put :
    (id : Text) (p : Put) (file : File)
    → p.written ≡ true
    → get id true (put_record p file) ≡ after_put id p (get id true file)
unfolding put_record get read_all lookup
put_record-after_put id p file w = elim (Bool-cases p.readable) [
  | inl r ↦
      rw (w, r)
        (ground (arith, lookup-put id (p.kept).linear_session_id p.kept (read_all true file)))
  | inr r ↦ rw (w, r) (ground (arith, lookup-put id (p.kept).linear_session_id p.kept []))
]

-- In a series of puts, a put was written, and each later one wrote nothing, or could read the file
-- and is not for the session that is asked for. Then a `get` that can read the file answers the
-- record of that put, if it is for this session; and if it is for another, what a `get` before it
-- would have answered if that put could read the file, and nothing if it could not: its write has
-- erased the other sessions.
pub get-put_all :
    (id : Text) (before after : List Put) (p : Put) (file : File)
    → p.written ≡ true
    → All (Leaves id) after
    → get id true (put_all (before ++ p ∷ after) file)
      ≡ after_put id p (get id true (put_all before file))
unfolding put_all
get-put_all id before after p file w h =
    ap (get id true) (put_all-++ before (p ∷ after) file)
    ∙ put_all-Leaves id after (put_record p (put_all before file)) h
    ∙ put_record-after_put id p (put_all before file) w
