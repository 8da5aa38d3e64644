-- ===== src/Send/Checkpoint/Blank.antt =====
-- `value.trim().length === 0`, as the filters of draft ids in
-- src/sync/backends/jmap/send-checkpoint.ts test a text.
use Prim.Native.Char.{code}
use Prim.Native.String.{String, [], ◌∷◌}
use stormbox.Base.{ℕ, Bool, true, ◌&&◌, ◌||◌, ◌==◌, nat_eq, leb}

-- WhiteSpace and LineTerminator of ECMAScript, which `trim` removes.
abbrev is_space : ℕ → Bool
is_space n =
    (leb 9 n && leb n 13)
    || (n == 32
        || (n == 160
            || (n == 5760
                || ((leb 8192 n && leb n 8202)
                    || (n == 8232
                        || (n == 8233
                            || (n == 8239 || (n == 8287 || (n == 12288 || n == 65279)))))))))

unfoldable pub is_blank : String → Bool
is_blank [] = true
is_blank (c ∷ s) = let rest = is_blank s in is_space (code c) && rest
