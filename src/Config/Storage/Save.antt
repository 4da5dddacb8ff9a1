-- ===== src/Config/Storage/Save.antt =====
-- The files after server_config_save, whichever of its steps fails.
use bo_smart_factory_opcua_t.Base.{
  ℕ, ◌+◌, ◌<◌, ◌≡◌, ◌≢◌, refl, true, false, inl, inr, ◌++◌, Option, none, some, arith, CString,
  codes, str_eq, str_eq_iff, str_eq_refl, fit_of_short, length, take, take_of_length-le,
  length-append, length-take-le, str_eq_ne, Bool-cases, Option-cases, ap, sym, ◌∙◌, ◌⊎◌,
}
use bo_smart_factory_opcua_t.Config.{ServerConfig, config_path_max}
use bo_smart_factory_opcua_t.Config.Json.{CJson, config_to_json}
use bo_smart_factory_opcua_t.Config.Storage.{Storage, Env, update, tmp_path, write_file, save}

tmp_path_lem :
    (st : Storage)
    → length st.g_config_path < config_path_max
    → tmp_path st ≡ st.g_config_path ++ codes ".tmp"
tmp_path_lem st h =
    fit_of_short (config_path_max + 8) (st.g_config_path ++ codes ".tmp")
      (omega (arith, length-append st.g_config_path (codes ".tmp")))

pub tmp_path-ne :
    (st : Storage)
    → length st.g_config_path < config_path_max
    → str_eq (tmp_path st) st.g_config_path ≡ false
tmp_path-ne st h = elim (Bool-cases (str_eq (tmp_path st) st.g_config_path)) [
  | inl e ↦ absurd (
      omega (
        arith,
        length-append st.g_config_path (codes ".tmp"),
        ap length (sym (tmp_path_lem st h) ∙ (str_eq_iff _ _).0 e),
      ))
  | inr e ↦ e
]

-- The files after a save that wrote `written` bytes, before the rename.
written : (env : Env) (st : Storage) (text : CString) → CString → Option CString
written env st text =
    update st.files (tmp_path st)
      (some (take (env.fclose (env.fwrite (length text))) (take (env.fwrite (length text)) text)))

-- The four ways through the file work.
write_file_cases :
    (env : Env) (st : Storage) (text : CString)
    → (write_file env st text ≡ (false, st))
      ⊎ (write_file env st text ≡ (false, record st { files = written env st text }))
      ⊎ ((env.fwrite (length text) ≡ length text)
          × (write_file env st text ≡ (
            true,
            record st {
              files =
                  update
                    (update
                      (written env st text)
                      st.g_config_path
                      (written env st text (tmp_path st)))
                    (tmp_path st)
                    none;
            },
          )))
unfolding write_file written
write_file_cases env st text = ground arith

-- If fclose loses nothing, a save either succeeds, and the file of the configuration holds the
-- whole printed document, or it fails, and the file is as it was, whichever step fails.
pub save_atomic :
    (c : CJson) (env : Env) (st : Storage) (cfg : ServerConfig)
    → length st.g_config_path < config_path_max
    → ((n : ℕ) → env.fclose n ≡ n)
    → let r = save c env st cfg in
      ((text : CString) × (r.0 ≡ true)
        × (c.print (config_to_json c cfg) ≡ some text)
        × (r.1.files st.g_config_path ≡ some text))
      ⊎ ((r.0 ≡ false) × (r.1.files st.g_config_path ≡ st.files st.g_config_path))
unfolding save written
save_atomic c env st cfg h k = elim (Option-cases (c.print (config_to_json c cfg))) [
  | inl e ↦ rw (e, save) (inr (refl, refl))
  | inr (text, e) ↦ elim (write_file_cases env st text) [
    | inl w ↦ rw (e, save, w) (inr (refl, refl))
    | inr (inl w) ↦ rw (e, save, w) (inr (refl, rw (tmp_path-ne st h)))
    | inr (inr (n, w)) ↦
        rw (e, save, w)
          (inl (
            text,
            refl,
            refl,
            rw (
              tmp_path-ne st h,
              str_eq_refl st.g_config_path,
              str_eq_refl (tmp_path st),
              n,
              k (length text),
              take_of_length-le (length text) text (omega arith),
              take_of_length-le (length text) text (omega arith),
            ),
          ))
  ]
]

-- A save changes no file but that of the configuration and the temporary one beside it.
pub save_other_files :
    (c : CJson) (env : Env) (st : Storage) (cfg : ServerConfig) (q : CString)
    → q ≢ st.g_config_path
    → q ≢ tmp_path st
    → (save c env st cfg).1.files q ≡ st.files q
unfolding save written
save_other_files c env st cfg q h k = elim (Option-cases (c.print (config_to_json c cfg))) [
  | inl e ↦ rw (e, save)
  | inr (text, e) ↦
      let tmp = str_eq_ne q (tmp_path st) k in
      elim (write_file_cases env st text) [
        | inl w ↦ rw (e, save, w)
        | inr (inl w) ↦ rw (e, save, w, tmp)
        | inr (inr (n, w)) ↦ rw (e, save, w, tmp, str_eq_ne q st.g_config_path h)
      ]
]

-- The files after a save in which every step but fclose goes well.
pub saved_files : (env : Env) (st : Storage) (text : CString) → CString → Option CString
saved_files env st text =
    update
      (update (update st.files (tmp_path st) (some (take (env.fclose (length text)) text)))
        st.g_config_path (some (take (env.fclose (length text)) text)))
      (tmp_path st) none

pub saved_files-path :
    (env : Env) (st : Storage) (text : CString)
    → length st.g_config_path < config_path_max
    → saved_files env st text st.g_config_path ≡ some (take (env.fclose (length text)) text)
unfolding saved_files
saved_files-path env st text h = rw (tmp_path-ne st h, str_eq_refl st.g_config_path)

pub save_ok :
    (c : CJson) (env : Env) (st : Storage) (cfg : ServerConfig) (text : CString)
    → c.print (config_to_json c cfg) ≡ some text
    → env.fopen_write (tmp_path st) ≡ true
    → env.fwrite (length text) ≡ length text
    → env.rename ≡ true
    → save c env st cfg ≡ (true, record st { files = saved_files env st text })
unfolding save write_file saved_files
save_ok c env st cfg text e o w m =
    let all = take_of_length-le (length text) text (omega arith) in
    rw (e, save) (ground (arith, w, all, str_eq_refl (tmp_path st)))

-- The result of fclose is not looked at. If all steps but fclose go well, and fclose loses the end
-- of the text, then save reports success and leaves a truncated file in place of the old one.
pub save_truncates :
    (c : CJson) (env : Env) (st : Storage) (cfg : ServerConfig) (text : CString)
    → length st.g_config_path < config_path_max
    → c.print (config_to_json c cfg) ≡ some text
    → env.fopen_write (tmp_path st) ≡ true
    → env.fwrite (length text) ≡ length text
    → env.rename ≡ true
    → env.fclose (length text) < length text
    → let r = save c env st cfg in
      (r.0 ≡ true)
      × (r.1.files st.g_config_path ≡ some (take (env.fclose (length text)) text))
      × (take (env.fclose (length text)) text ≢ text)
save_truncates c env st cfg text h e o w m l = rw (save_ok c env st cfg text e o w m) (
  refl,
  saved_files-path env st text h,
  λ same. omega (arith, ap length same, length-take-le (env.fclose (length text)) text),
)
