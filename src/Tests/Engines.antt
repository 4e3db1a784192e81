-- ===== src/Tests/Engines.antt =====
-- The OCR stage of the program, with a binary that fails and a server that answers.
use invoice_ocr_poc.Base.{true, some, ◌≡◌, refl, []}
use invoice_ocr_poc.Errors.{ok, err, other}
use invoice_ocr_poc.Float.{micros_float}
use invoice_ocr_poc.Strings.{Text, codes, before, cut_prefix}
use invoice_ocr_poc.Ocr.Clean.{clean_text}
use invoice_ocr_poc.Ocr.Tesseract.{Binary}
use invoice_ocr_poc.Ocr.Tesseract
use invoice_ocr_poc.Ocr.Ollama.{Inputs, new_ollama}
use invoice_ocr_poc.Ocr.Ollama
use invoice_ocr_poc.Config.Load.{read_config}
use invoice_ocr_poc.Service.Cascade.{recognize_cascade, keeps_first, recognize_one, second_hop}
use invoice_ocr_poc.Service.Stages.{stage_ocr, after_ocr}
use invoice_ocr_poc.Program.Engines.{tess, ollama, IsRead, stage_ocr-IsRead}
use invoice_ocr_poc.Tests.Data.{service, sights, world, one_job}
use invoice_ocr_poc.Tests.Clients.{verbs, transport}
use invoice_ocr_poc.Tests.Settings.{config}

abbrev binary : Binary
binary = record { on_path = true; output = λ lang path. err (other "exit status 1") }

abbrev inputs : Inputs
inputs = record {
  read_file = λ path. ok (codes "jpeg");
  marshal = λ model image. ok (codes "{}");
  decode = λ body. ok (record {
    response = codes "CAFE 5,00";
    content = [];
    total_duration = 2000000;
    load_duration = 0;
    eval_count = 3;
    eval_duration = 0;
    prompt_eval_count = 4;
    prompt_eval_duration = 0;
  });
}

stage_ocr-IsRead_example :
    let t = some (tess binary transport verbs inputs 5 config) in
    let out =
      stage_ocr service t
        (some (ollama binary transport verbs inputs 5 config))
        sights
        world
        one_job in
    (text : Text) × IsRead binary transport verbs inputs 5 config service one_job.img_path text
    × (out.1.ocr_res.text ≡ clean_text text)
    × (out.1.inv.ocr_text ≡ clean_text text)
unfolding stage_ocr recognize_cascade keeps_first recognize_one tess Tesseract.available
    Tesseract.recognize second_hop ollama Ollama.available new_ollama read_config Ollama.recognize
    before cut_prefix after_ocr
stage_ocr-IsRead_example =
    stage_ocr-IsRead binary transport verbs inputs 5 config service sights world one_job refl
