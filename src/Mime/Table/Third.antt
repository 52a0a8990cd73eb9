-- ===== src/Mime/Table/Third.antt =====
-- src/mime_map.cpp: entries of the table, in the order of the source.
use Prim.Native.String.{String}
use tcpflow.Base.{List, [], ◌∷◌}

abbrev pub third_entries : List (String × String)
third_entries =
    ("application/vnd.ms-excel.sheet.binary.macroenabled.12", "xlsb")
    ∷ ("application/vnd.ms-excel.sheet.macroenabled.12", "xlsm")
    ∷ ("application/vnd.ms-excel.template.macroenabled.12", "xltm")
    ∷ ("application/vnd.ms-fontobject", "eot")
    ∷ ("application/vnd.ms-htmlhelp", "chm")
    ∷ ("application/vnd.ms-ims", "ims")
    ∷ ("application/vnd.ms-lrm", "lrm")
    ∷ ("application/vnd.ms-officetheme", "thmx")
    ∷ ("application/vnd.ms-pki.seccat", "cat")
    ∷ ("application/vnd.ms-pki.stl", "stl")
    ∷ ("application/vnd.ms-powerpoint", "ppt")
    ∷ ("application/vnd.ms-powerpoint.addin.macroenabled.12", "ppam")
    ∷ ("application/vnd.ms-powerpoint.presentation.macroenabled.12", "pptm")
    ∷ ("application/vnd.ms-powerpoint.slide.macroenabled.12", "sldm")
    ∷ ("application/vnd.ms-powerpoint.slideshow.macroenabled.12", "ppsm")
    ∷ ("application/vnd.ms-powerpoint.template.macroenabled.12", "potm")
    ∷ ("application/vnd.ms-project", "mpp")
    ∷ ("application/vnd.ms-word.document.macroenabled.12", "docm")
    ∷ ("application/vnd.ms-word.template.macroenabled.12", "dotm")
    ∷ ("application/vnd.ms-works", "wps")
    ∷ ("application/vnd.ms-wpl", "wpl")
    ∷ ("application/vnd.ms-xpsdocument", "xps")
    ∷ ("application/vnd.mseq", "mseq")
    ∷ ("application/vnd.musician", "mus")
    ∷ ("application/vnd.muvee.style", "msty")
    ∷ ("application/vnd.neurolanguage.nlu", "nlu")
    ∷ ("application/vnd.noblenet-directory", "nnd")
    ∷ ("application/vnd.noblenet-sealer", "nns")
    ∷ ("application/vnd.noblenet-web", "nnw")
    ∷ ("application/vnd.nokia.n-gage.data", "ngdat")
    ∷ ("application/vnd.nokia.n-gage.symbian.install", "n-gage")
    ∷ ("application/vnd.nokia.radio-preset", "rpst")
    ∷ ("application/vnd.nokia.radio-presets", "rpss")
    ∷ ("application/vnd.novadigm.edm", "edm")
    ∷ ("application/vnd.novadigm.edx", "edx")
    ∷ ("application/vnd.novadigm.ext", "ext")
    ∷ ("application/vnd.oasis.opendocument.chart", "odc")
    ∷ ("application/vnd.oasis.opendocument.chart-template", "otc")
    ∷ ("application/vnd.oasis.opendocument.database", "odb")
    ∷ ("application/vnd.oasis.opendocument.formula", "odf")
    ∷ ("application/vnd.oasis.opendocument.formula-template", "odft")
    ∷ ("application/vnd.oasis.opendocument.graphics", "odg")
    ∷ ("application/vnd.oasis.opendocument.graphics-template", "otg")
    ∷ ("application/vnd.oasis.opendocument.image", "odi")
    ∷ ("application/vnd.oasis.opendocument.image-template", "oti")
    ∷ ("application/vnd.oasis.opendocument.presentation", "odp")
    ∷ ("application/vnd.oasis.opendocument.presentation-template", "otp")
    ∷ ("application/vnd.oasis.opendocument.spreadsheet", "ods")
    ∷ ("application/vnd.oasis.opendocument.spreadsheet-template", "ots")
    ∷ ("application/vnd.oasis.opendocument.text", "odt")
    ∷ ("application/vnd.oasis.opendocument.text-master", "odm")
    ∷ ("application/vnd.oasis.opendocument.text-template", "ott")
    ∷ ("application/vnd.oasis.opendocument.text-web", "oth")
    ∷ ("application/vnd.olpc-sugar", "xo")
    ∷ ("application/vnd.oma.dd2+xml", "dd2")
    ∷ ("application/vnd.openofficeorg.extension", "oxt")
    ∷ ("application/vnd.openxmlformats-officedocument.presentationml.presentation", "pptx")
    ∷ ("application/vnd.openxmlformats-officedocument.presentationml.slide", "sldx")
    ∷ ("application/vnd.openxmlformats-officedocument.presentationml.slideshow", "ppsx")
    ∷ ("application/vnd.openxmlformats-officedocument.presentationml.template", "potx")
    ∷ ("application/vnd.openxmlformats-officedocument.spreadsheetml.sheet", "xlsx")
    ∷ ("application/vnd.openxmlformats-officedocument.spreadsheetml.template", "xltx")
    ∷ ("application/vnd.openxmlformats-officedocument.wordprocessingml.document", "docx")
    ∷ ("application/vnd.openxmlformats-officedocument.wordprocessingml.template", "dotx")
    ∷ ("application/vnd.osgeo.mapguide.package", "mgp")
    ∷ ("application/vnd.osgi.dp", "dp")
    ∷ ("application/vnd.palm", "pdb")
    ∷ ("application/vnd.pawaafile", "paw")
    ∷ ("application/vnd.pg.format", "str")
    ∷ ("application/vnd.pg.osasli", "ei6")
    ∷ ("application/vnd.picsel", "efif")
    ∷ ("application/vnd.pmi.widget", "wg")
    ∷ ("application/vnd.pocketlearn", "plf")
    ∷ ("application/vnd.powerbuilder6", "pbd")
    ∷ ("application/vnd.previewsystems.box", "box")
    ∷ ("application/vnd.proteus.magazine", "mgz")
    ∷ ("application/vnd.publishare-delta-tree", "qps")
    ∷ ("application/vnd.pvi.ptid1", "ptid")
    ∷ ("application/vnd.quark.quarkxpress", "qxd")
    ∷ ("application/vnd.realvnc.bed", "bed")
    ∷ ("application/vnd.recordare.musicxml", "mxl")
    ∷ ("application/vnd.recordare.musicxml+xml", "musicxml")
    ∷ ("application/vnd.rig.cryptonote", "cryptonote")
    ∷ ("application/vnd.rim.cod", "cod")
    ∷ ("application/vnd.rn-realmedia", "rm")
    ∷ ("application/vnd.route66.link66+xml", "link66")
    ∷ ("application/vnd.sailingtracker.track", "st")
    ∷ ("application/vnd.seemail", "see")
    ∷ ("application/vnd.sema", "sema")
    ∷ ("application/vnd.semd", "semd")
    ∷ ("application/vnd.semf", "semf")
    ∷ ("application/vnd.shana.informed.formdata", "ifm")
    ∷ ("application/vnd.shana.informed.formtemplate", "itp")
    ∷ ("application/vnd.shana.informed.interchange", "iif")
    ∷ ("application/vnd.shana.informed.package", "ipk")
    ∷ ("application/vnd.simtech-mindmapper", "twd")
    ∷ ("application/vnd.smaf", "mmf")
    ∷ ("application/vnd.smart.teacher", "teacher")
    ∷ ("application/vnd.solent.sdkm+xml", "sdkm")
    ∷ ("application/vnd.spotfire.dxp", "dxp")
    ∷ ("application/vnd.spotfire.sfs", "sfs")
    ∷ ("application/vnd.stardivision.calc", "sdc")
    ∷ ("application/vnd.stardivision.draw", "sda")
    ∷ ("application/vnd.stardivision.impress", "sdd")
    ∷ ("application/vnd.stardivision.math", "smf")
    ∷ ("application/vnd.stardivision.writer", "sdw")
    ∷ ("application/vnd.stardivision.writer-global", "sgl")
    ∷ ("application/vnd.stepmania.stepchart", "sm")
    ∷ ("application/vnd.sun.xml.calc", "sxc")
    ∷ ("application/vnd.sun.xml.calc.template", "stc")
    ∷ ("application/vnd.sun.xml.draw", "sxd")
    ∷ ("application/vnd.sun.xml.draw.template", "std")
    ∷ ("application/vnd.sun.xml.impress", "sxi")
    ∷ ("application/vnd.sun.xml.impress.template", "sti")
    ∷ ("application/vnd.sun.xml.math", "sxm")
    ∷ ("application/vnd.sun.xml.writer", "sxw")
    ∷ ("application/vnd.sun.xml.writer.global", "sxg")
    ∷ ("application/vnd.sun.xml.writer.template", "stw")
    ∷ ("application/vnd.sus-calendar", "sus")
    ∷ ("application/vnd.svd", "svd")
    ∷ ("application/vnd.symbian.install", "sis")
    ∷ ("application/vnd.syncml+xml", "xsm")
    ∷ ("application/vnd.syncml.dm+wbxml", "bdm")
    ∷ ("application/vnd.syncml.dm+xml", "xdm")
    ∷ ("application/vnd.tao.intent-module-archive", "tao")
    ∷ ("application/vnd.tmobile-livetv", "tmo")
    ∷ ("application/vnd.trid.tpt", "tpt")
    ∷ ("application/vnd.triscape.mxs", "mxs")
    ∷ ("application/vnd.trueapp", "tra")
    ∷ ("application/vnd.ufdl", "ufdl")
    ∷ ("application/vnd.uiq.theme", "utz")
    ∷ ("application/vnd.umajin", "umj")
    ∷ ("application/vnd.unity", "unityweb")
    ∷ ("application/vnd.uoml+xml", "uoml")
    ∷ ("application/vnd.vcx", "vcx")
    ∷ ("application/vnd.visio", "vsd")
    ∷ ("application/vnd.visionary", "vis")
    ∷ ("application/vnd.vsf", "vsf")
    ∷ ("application/vnd.wap.wbxml", "wbxml")
    ∷ ("application/vnd.wap.wmlc", "wmlc")
    ∷ []
